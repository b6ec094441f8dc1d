-- ===== src/Storage/Keys.antt =====
-- nexus/runtime/foreign_storage_keys.py: the session keys of unlocked deposits. A key is its text of
-- bytes; scrubbing the old buffer shows nowhere in the cache, and of the extra fields only the clock
-- is kept.
pub mod Collect
use mathlib.Core.Option
use nexus_grid_grid.Prelude.Dicts
use nexus_grid_grid.Prelude.{
  ℕ, ◌+◌, Bool, true, false, not, ◌&&◌, ◌||◌, List, [], ◌∷◌, Option, none, some, String, Dict,
  contains, dict_keys, if◌then◌else◌, ltb, ◌==◌, text_key,
}

pub record KeyEntry : Type 0 where
  pub key : String
  pub unlocked_at : ℕ
  pub last_used_at : ℕ

abbrev pub Bucket : Type 0
Bucket = Dict String KeyEntry

unfoldable pub store : ℕ → String → String → Bucket → Bucket
store now deposit_id key bucket =
    let since : ℕ = elim (Dicts.get deposit_id bucket) [
      | none ↦ now
      | some old ↦ old.unlocked_at
    ] in
    Dicts.insert deposit_id (record { key = key; unlocked_at = since; last_used_at = now }) bucket

unfoldable pub is_unlocked : String → Bucket → Bool
is_unlocked deposit_id bucket = elim (Dicts.get deposit_id bucket) [
  | none ↦ false
  | some entry ↦ not (entry.key == "")
]

-- `get`: the key, if there is one, and the cache with the use noted.
unfoldable pub take_key : ℕ → String → Bucket → Option String × Bucket
take_key now deposit_id bucket = elim (Dicts.get deposit_id bucket) [
  | none ↦ (none, bucket)
  | some entry ↦
      if entry.key == ""
      then (none, bucket)
      else (some entry.key, Dicts.insert deposit_id (record entry { last_used_at = now }) bucket)
]

unfoldable pub drop_key : String → Bucket → Bucket
drop_key deposit_id bucket = Dicts.erase deposit_id bucket

-- Idle for longer than the limit, with a key to lose.
unfoldable pub is_idle : ℕ → ℕ → KeyEntry → Bool
is_idle now idle_ttl entry = not (entry.key == "") && ltb (entry.last_used_at + idle_ttl) now

unfoldable pub idle_now : ℕ → ℕ → String → Bucket → Bool
unfolding is_idle
idle_now now idle_ttl deposit_id bucket = elim (Dicts.get deposit_id bucket) [
  | none ↦ false
  | some entry ↦ is_idle now idle_ttl entry
]

unfoldable pub gc_each : ℕ → ℕ → List String → Bucket → List String × Bucket
unfolding drop_key idle_now
gc_each now idle_ttl [] bucket = ([], bucket)
gc_each now idle_ttl (id ∷ ids) bucket =
    let idle = idle_now now idle_ttl id bucket in
    let (evicted, after) = gc_each now idle_ttl ids (if idle then drop_key id bucket else bucket) in
    (if idle then id ∷ evicted else evicted, after)

unfoldable pub gc : ℕ → ℕ → Bucket → List String × Bucket
unfolding gc_each
gc now idle_ttl bucket = gc_each now idle_ttl (dict_keys bucket) bucket
