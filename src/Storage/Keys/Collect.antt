-- ===== src/Storage/Keys/Collect.antt =====
-- What a collection of idle keys leaves.
use nexus_grid_grid.Prelude.Dicts
use nexus_grid_grid.Prelude.{
  ℕ, true, ◌&&◌, ◌≡◌, refl, ◌∙◌, List, [], ◌∷◌, none, some, String, contains, dict_keys,
  if◌then◌else◌, ◌==◌, text_key, arith, beq_comm, beq_refl, eq_of_beq, Bool-cases, Option-cases,
  inl, inr,
}
use nexus_grid_grid.Storage.Keys.{KeyEntry, Bucket, drop_key, idle_now, gc_each, gc}

next_bucket :
    (now idle_ttl : ℕ) (j id : String) (bucket : Bucket)
    → Dicts.get id (if idle_now now idle_ttl j bucket then drop_key j bucket else bucket)
      ≡ (if (j == id) && idle_now now idle_ttl id bucket then none else Dicts.get id bucket)
unfolding drop_key
next_bucket now idle_ttl j id bucket = elim (Bool-cases (j == id)) [
  | inl mine ↦
      rw (eq_of_beq j id mine) (ground (arith, mine, beq_refl id, Dicts.get-erase id id bucket))
  | inr apart ↦ ground (arith, apart, Dicts.get-erase j id bucket)
]

gc_each-get :
    (now idle_ttl : ℕ) (ids : List String) (id : String) (bucket : Bucket)
    → Dicts.get id (gc_each now idle_ttl ids bucket).1
      ≡ (if contains ids id && idle_now now idle_ttl id bucket then none else Dicts.get id bucket)
unfolding gc_each idle_now
gc_each-get now idle_ttl [] id bucket = refl
gc_each-get now idle_ttl (j ∷ ids) id bucket =
    let next = if idle_now now idle_ttl j bucket then drop_key j bucket else bucket in
    let step = next_bucket now idle_ttl j id bucket in
    let rest = gc_each-get now idle_ttl ids id next in ground (arith, step, rest, beq_comm j id)

key_listed :
    (id : String) (entry : KeyEntry) (bucket : Bucket)
    → Dicts.get id bucket ≡ some entry
    → contains (dict_keys bucket) id ≡ true
unfolding Dicts.get
key_listed id entry [] h = absurd (cc)
key_listed id entry ((j, e) ∷ bucket) h = ground (arith, beq_comm j id, key_listed id entry bucket)

-- A collection drops exactly the deposits whose key has been idle for longer than the limit; an entry
-- used since, or one without a key, stays as it was.
pub gc_drops_idle :
    (now idle_ttl : ℕ) (id : String) (bucket : Bucket)
    → Dicts.get id (gc now idle_ttl bucket).1
      ≡ (if idle_now now idle_ttl id bucket then none else Dicts.get id bucket)
unfolding gc idle_now
gc_drops_idle now idle_ttl id bucket = gc_each-get now idle_ttl (dict_keys bucket) id bucket ∙ drops
  where
    drops :
        (if contains (dict_keys bucket) id && idle_now now idle_ttl id bucket
          then none
          else Dicts.get id bucket)
        ≡ (if idle_now now idle_ttl id bucket then none else Dicts.get id bucket)
    drops = elim (Option-cases (Dicts.get id bucket)) [
      | inl absent ↦ ground (arith, absent)
      | inr (entry, found) ↦ ground (arith, key_listed id entry bucket found)
    ]
