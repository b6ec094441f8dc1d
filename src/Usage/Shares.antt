-- ===== src/Usage/Shares.antt =====
-- What one receipt adds to each total and to each counter, whatever stood there.
use nexus_grid_grid.Prelude.Dicts
use nexus_grid_grid.Prelude.{
  ℕ, ◌+◌, Bool, true, false, not, ◌&&◌, ◌≡◌, refl, sym, ap, ◌∙◌, List, [], ◌∷◌, none, some, String,
  Dict, if◌then◌else◌, ◌==◌, text_key, nat_eq, pair_key, arith, eq_of_beq,
}
use nexus_grid_grid.Prelude.Int.{ℤ, pos, ◌+ℤ◌, add_zero, zero_add, add_assoc}
use nexus_grid_grid.Usage.{
  Receipt, GroupComputeStat, Counters, pending, accumulate, is_zero, record_delta, record_deltas,
  feed_counters, bump_stat, bumped, bump_members, provided_deltas, consumed_deltas, bucket_gid,
}

-- A change of the counters that adds the same amounts whatever they held.
pub record IsShift (change : Counters → Counters) : Type 0 where
  pub shifts :
      (key : String × String) (counters : Counters)
      → pending key (change counters) ≡ pending key counters +ℤ pending key (change [])

pub pending-empty : (key : String × String) → pending key [] ≡ pos 0
unfolding pending Dicts.get
pending-empty key = refl

id-IsShift : IsShift (λ counters. counters)
id-IsShift = record {
  shifts = λ key counters. rw pending-empty (ground (arith, add_zero (pending key counters)));
}

compose-IsShift :
    (first second : Counters → Counters)
    → IsShift first
    → IsShift second
    → IsShift (λ counters. second (first counters))
compose-IsShift first second f s = record {
  shifts = λ key counters.
      s.shifts key (first counters)
      ∙ ap (λ x. x +ℤ pending key (second [])) (f.shifts key counters)
      ∙ add_assoc (pending key counters) (pending key (first [])) (pending key (second []))
      ∙ ap (λ x. pending key counters +ℤ x) (sym (s.shifts key (first [])));
}

choice-IsShift :
    (b : Bool) (first second : Counters → Counters)
    → IsShift first
    → IsShift second
    → IsShift (λ counters. if b then first counters else second counters)
choice-IsShift true first second f s = f
choice-IsShift false first second f s = s

pub pending-accumulate :
    (j key : String × String) (value : ℤ) (counters : Counters)
    → pending key (accumulate j value counters)
      ≡ (if j == key then pending key counters +ℤ value else pending key counters)
unfolding pending accumulate
pending-accumulate j key value counters = ground (
  arith,
  Dicts.get-insert j key (pending j counters +ℤ value) counters,
  ap (λ k. pending k counters) (eq_of_beq j key _),
)

accumulate-IsShift : (j : String × String) (value : ℤ) → IsShift (accumulate j value)
accumulate-IsShift j value = record {
  shifts = λ key counters. ground (
    arith,
    pending-accumulate j key value counters,
    pending-accumulate j key value [],
    pending-empty key,
    zero_add value,
    add_zero (pending key counters),
  );
}

record_delta-IsShift :
    (group_id : String) (field : String) (value : ℤ) → IsShift (record_delta group_id field value)
unfolding record_delta
record_delta-IsShift group_id field value =
    choice-IsShift (is_zero value) (λ counters. counters)
      (λ counters. accumulate ("*", field) value (accumulate (group_id, field) value counters))
      id-IsShift
      (compose-IsShift (accumulate (group_id, field) value) (accumulate ("*", field) value)
        (accumulate-IsShift (group_id, field) value) (accumulate-IsShift ("*", field) value))

record_deltas-IsShift :
    (group_id : String) (deltas : List (String × ℤ)) → IsShift (record_deltas group_id deltas)
unfolding record_deltas
record_deltas-IsShift group_id [] = id-IsShift
record_deltas-IsShift group_id ((field, value) ∷ deltas) =
    choice-IsShift (group_id == "") (λ counters. counters)
      (λ counters. record_deltas group_id deltas (record_delta group_id field value counters))
      id-IsShift
      (compose-IsShift (record_delta group_id field value) (record_deltas group_id deltas)
        (record_delta-IsShift group_id field value) (record_deltas-IsShift group_id deltas))

-- Feeding a receipt to the counters adds its own amounts to what they held.
pub feed_counters-IsShift : (me : String) (receipt : Receipt) → IsShift (feed_counters me receipt)
unfolding feed_counters
feed_counters-IsShift me receipt =
    let provide =
      choice-IsShift (receipt.provider_pubkey == me)
        (record_deltas (bucket_gid receipt) (provided_deltas receipt)) (λ counters. counters)
        (record_deltas-IsShift (bucket_gid receipt) (provided_deltas receipt)) id-IsShift in
    let step : Counters → Counters = (λ counters.
      if receipt.provider_pubkey == me
      then record_deltas (bucket_gid receipt) (provided_deltas receipt) counters
      else counters) in
    choice-IsShift (receipt.consumer_pubkey == me)
      (λ counters. record_deltas (bucket_gid receipt) (consumed_deltas receipt) (step counters))
      step
      (compose-IsShift step (record_deltas (bucket_gid receipt) (consumed_deltas receipt)) provide
        (record_deltas-IsShift (bucket_gid receipt) (consumed_deltas receipt)))
      provide

abbrev pub Stats : Type 0
Stats = Dict (String × String) GroupComputeStat

-- A member's totals in a group, none when no row stands there.
unfoldable pub contributed_by : String × String → Stats → ℕ
contributed_by key stats = elim (Dicts.get key stats) [ none ↦ 0 | some row ↦ row.contributed ]

unfoldable pub consumed_by : String × String → Stats → ℕ
consumed_by key stats = elim (Dicts.get key stats) [ none ↦ 0 | some row ↦ row.consumed ]

-- What a receipt counts for a member.
unfoldable pub contributed_share : String × String → Receipt → ℕ
contributed_share key receipt =
    if not (receipt.group_id == "")
      && receipt.kind == "compute"
      && ((receipt.group_id, receipt.provider_pubkey) == key)
    then 1
    else 0

unfoldable pub consumed_share : String × String → Receipt → ℕ
consumed_share key receipt =
    if not (receipt.group_id == "")
      && receipt.kind == "compute"
      && ((receipt.group_id, receipt.consumer_pubkey) == key)
    then 1
    else 0

contributed_by-bump_stat :
    (now : String) (j key : String × String) (c d : ℕ) (stats : Stats)
    → contributed_by key (bump_stat now j c d stats)
      ≡ (if j == key then contributed_by key stats + c else contributed_by key stats)
unfolding contributed_by bump_stat bumped
contributed_by-bump_stat now j key c d stats = ground (
  arith,
  ap (λ k. Dicts.get k stats) (eq_of_beq j key _),
  Dicts.get-insert j key (bumped now c d (Dicts.get j stats)) stats,
)

consumed_by-bump_stat :
    (now : String) (j key : String × String) (c d : ℕ) (stats : Stats)
    → consumed_by key (bump_stat now j c d stats)
      ≡ (if j == key then consumed_by key stats + d else consumed_by key stats)
unfolding consumed_by bump_stat bumped
consumed_by-bump_stat now j key c d stats = ground (
  arith,
  ap (λ k. Dicts.get k stats) (eq_of_beq j key _),
  Dicts.get-insert j key (bumped now c d (Dicts.get j stats)) stats,
)

-- A receipt moves each total by the receipt's share.
pub contributed_by-bump_members :
    (now : String) (key : String × String) (receipt : Receipt) (stats : Stats)
    → contributed_by key (bump_members now receipt stats)
      ≡ contributed_by key stats + contributed_share key receipt
unfolding bump_members contributed_share
contributed_by-bump_members now key receipt stats = ground (
  arith,
  contributed_by-bump_stat now (receipt.group_id, receipt.consumer_pubkey) key 0 1
      (bump_stat now (receipt.group_id, receipt.provider_pubkey) 1 0 stats),
  contributed_by-bump_stat now (receipt.group_id, receipt.provider_pubkey) key 1 0 stats,
)

pub consumed_by-bump_members :
    (now : String) (key : String × String) (receipt : Receipt) (stats : Stats)
    → consumed_by key (bump_members now receipt stats)
      ≡ consumed_by key stats + consumed_share key receipt
unfolding bump_members consumed_share
consumed_by-bump_members now key receipt stats = ground (
  arith,
  consumed_by-bump_stat now (receipt.group_id, receipt.consumer_pubkey) key 0 1
      (bump_stat now (receipt.group_id, receipt.provider_pubkey) 1 0 stats),
  consumed_by-bump_stat now (receipt.group_id, receipt.provider_pubkey) key 1 0 stats,
)
