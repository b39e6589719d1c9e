-- ===== src/Index/Tree/Metadata.antt =====
-- A tree's metadata comes back from its page.
use resume_project.Common.{
  ℕ, ◌≡◌, refl, true, some, [], arith, IsU64, IsU16, put16, put64, get16, get64, get64-put64,
  get16-put16, take, same_bytes,
}
use resume_project.Storage.Page.{is_valid}
use resume_project.Index.Node.{Config, is_valid_config}
use resume_project.Index.Tree.{encode_metadata, decode_metadata, tree_magic}

-- A valid root page and a valid configuration of 16-bit limits come back from the bytes of a
-- tree's metadata page.
pub decode-encode_metadata :
    (root : ℕ) (c : Config)
    → IsU64 root
    → is_valid root ≡ true
    → IsU16 c.leaf_max_keys
    → IsU16 c.internal_max_keys
    → is_valid_config c ≡ true
    → decode_metadata (encode_metadata root c) ≡ some (root, c)
unfolding decode_metadata is_valid_config
decode-encode_metadata root c fits valid leaf internal config =
    rw (at_root, at_leaf, at_internal, magic) (ground (arith, valid, config))
  where
    magic : same_bytes (take 8 (encode_metadata root c)) tree_magic ≡ true
    magic = unfold encode_metadata same_bytes in refl

    at_root : get64 (encode_metadata root c) 8 ≡ root
    at_root = unfold encode_metadata put64 put16 get64 in get64-put64 root [] fits

    at_leaf : get16 (encode_metadata root c) 16 ≡ c.leaf_max_keys
    at_leaf = unfold encode_metadata put64 put16 get16 in get16-put16 c.leaf_max_keys [] leaf

    at_internal : get16 (encode_metadata root c) 18 ≡ c.internal_max_keys
    at_internal =
        unfold encode_metadata put64 put16 get16 in get16-put16 c.internal_max_keys [] internal
