-- ===== src/Task/Keys.antt =====
-- What `dict.fromkeys` makes of a list (harness/orchestration/core.py).
use adk_coding_agent.Prelude.{
  String, ◌≡◌, ◌||◌, List, [], ◌∷◌, ◌++◌, eq_iff, arith, Bool-cases, inl, inr,
}
use adk_coding_agent.Prelude.Keyed.{
  string_eq, mem_key, mem_key-append, DistinctKeys, DistinctKeys-snoc,
}
use adk_coding_agent.Task.Reduce.{add_keys}

-- A key is there when it was or is added.
pub mem-add_keys :
    (k : String) (keys xs : List String)
    → mem_key k (add_keys keys xs) ≡ (mem_key k keys || mem_key k xs)
unfolding add_keys
mem-add_keys k keys [] = ground arith
mem-add_keys k keys (x ∷ xs) = ground (
  arith,
  mem-add_keys k keys xs,
  mem-add_keys k (keys ++ x ∷ []) xs,
  mem_key-append k keys (x ∷ []),
  eq_iff x k,
)

-- The keys stay distinct.
pub add_keys-DistinctKeys :
    (keys xs : List String) → DistinctKeys keys → DistinctKeys (add_keys keys xs)
unfolding add_keys
add_keys-DistinctKeys keys [] d = d
add_keys-DistinctKeys keys (x ∷ xs) d = elim (Bool-cases (mem_key x keys)) [
  | inl m ↦ rw m (add_keys-DistinctKeys keys xs d)
  | inr m ↦ rw m (add_keys-DistinctKeys (keys ++ x ∷ []) xs (DistinctKeys-snoc x keys d m))
]
