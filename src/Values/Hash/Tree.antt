-- ===== src/Values/Hash/Tree.antt =====
-- The hash of a tree.
use mirage_kfreebsd.Base.{◌||◌, if◌then◌else◌}
use mirage_kfreebsd.Base.Int.{pos, ◌-ℤ◌, ltb_ℤ}
use mirage_kfreebsd.Values.Compare.Tree.{Tree, leaf, text, node, Forest, nil, cons}
use mirage_kfreebsd.Values.Hash.{Hashing, combine, combine_small, combine_bytes, counted}

-- Once a counter is used up, subtrees are left out.
unfoldable mutual
  pub hash_tree : Tree → Hashing → Hashing
  hash_tree (leaf n) s = combine n (counted s)
  hash_tree (text bs) s = combine_bytes bs (counted s)
  hash_tree (node k ts) s = hash_forest ts (combine_small k (counted s))

  -- From the last tree to the first.
  pub hash_forest : Forest → Hashing → Hashing
  hash_forest nil s = s
  hash_forest (cons t ts) s =
      let rest = hash_forest ts s in
      let left = record rest { limit = rest.limit -ℤ pos 1 } in
      if ltb_ℤ left.count (pos 0) || ltb_ℤ left.limit (pos 0) then left else hash_tree t left
