-- ===== src/Index/Node/Examples.antt =====
-- A leaf of one entry, and an inner node of two children.
use resume_project.Common.{◌≡◌, refl, true, false, some, [], ◌∷◌, length, arith}
use resume_project.Storage.Page.{page_payload_size}
use resume_project.Index.Node.{Config, Node, is_valid_config, encode_node, decode_node}
use resume_project.Index.Node.RoundTrip.{IsNode, decode-encode_node}
use resume_project.Index.Node.Size.{length-encode_node}

-- `BPlusTreeConfig{}`
abbrev default_config : Config
default_config = record { leaf_max_keys = 16; internal_max_keys = 16 }

default_config-valid : is_valid_config default_config ≡ true
unfolding is_valid_config
default_config-valid = refl

abbrev one_entry : Node
one_entry = record {
  leaf = true;
  parent = 9;
  next = 4;
  keys = 70 ∷ [];
  values = record { page_id = 5; slot_id = 2 } ∷ [];
  children = [];
}

one_entry-IsNode : IsNode default_config one_entry
one_entry-IsNode = record {
  parent_fits = omega arith;
  next_fits = omega arith;
  count_fits = omega arith;
  keys_fit = (omega arith, tt);
  room = omega arith;
  has_entries = (refl, refl, ((omega arith, omega arith), tt));
}

abbrev two_children : Node
two_children = record {
  leaf = false;
  parent = 9;
  next = 4;
  keys = 70 ∷ [];
  values = [];
  children = 5 ∷ 6 ∷ [];
}

two_children-IsNode : IsNode default_config two_children
two_children-IsNode = record {
  parent_fits = omega arith;
  next_fits = omega arith;
  count_fits = omega arith;
  keys_fit = (omega arith, tt);
  room = omega arith;
  has_entries = (refl, refl, (omega arith, (omega arith, tt)));
}

decode-encode_node_example : decode_node default_config (encode_node one_entry) ≡ some one_entry
decode-encode_node_example = decode-encode_node default_config one_entry one_entry-IsNode

length-encode_node_example : length (encode_node two_children) ≡ page_payload_size
length-encode_node_example =
    length-encode_node default_config two_children default_config-valid two_children-IsNode
