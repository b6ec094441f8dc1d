-- ===== src/Storage/Deposit/Graph.antt =====
-- The graph of the deposit's states that the passes move along, and loops whose handlers keep to it.
use mathlib.Core.Path.{subst}
use mathlib.Core.Bool.{false≢true}
use nexus_grid_grid.Prelude.{
  Bool, true, false, ◌||◌, ◌≡◌, ◌==◌, refl, sym, ◌∙◌, ◌⊎◌, List, [], ◌∷◌, Bool-cases, inl, inr,
}
use nexus_grid_grid.Storage.Deposit.{
  Role, host, depositor, Status, offered, transferring, stored, eviction_requested, in_db_grace,
  purged, withdrawn, queued_offline, offering_multi, failed_in_transit, paused_send_failed,
  paused_silent, paused_host_shutdown, paused_host_down, paused_depositor_shutdown,
  paused_depositor_down, Deposit, Depot, sweep, status_key,
}

pub data IsStalled : Status → Type 0 where
  moving : IsStalled transferring
  host_send : IsStalled paused_send_failed
  host_silent : IsStalled paused_silent
  left : IsStalled paused_depositor_shutdown
  lost : IsStalled paused_depositor_down

pub data IsPaused : Status → Type 0 where
  send : IsPaused paused_send_failed
  silent : IsPaused paused_silent
  shutdown : IsPaused paused_host_shutdown
  down : IsPaused paused_host_down

-- The edges, for each side of a deposit.
pub data Edge : Role → Status → Status → Type 0 where
  expire : Edge host stored eviction_requested
  decommission : Edge host eviction_requested in_db_grace
  purge : Edge host in_db_grace purged
  abandon : {s : Status} → IsStalled s → Edge host s withdrawn
  send_offer : Edge depositor queued_offline offered
  give_up_offer : Edge depositor queued_offline withdrawn
  cancel_offers : Edge depositor offering_multi withdrawn
  fail_transit : {s : Status} → IsPaused s → Edge depositor s failed_in_transit

-- The states from which the loops after the first one move a deposit.
abbrev pub is_underway : Status → Bool
is_underway status =
    status == queued_offline
    || status == offering_multi
    || status == transferring
    || status == paused_send_failed
    || status == paused_silent
    || status == paused_host_shutdown
    || status == paused_host_down
    || status == paused_depositor_shutdown
    || status == paused_depositor_down

-- No edge leads into one of them.
end_of_edge : {r : Role} {s t : Status} → Edge r s t → is_underway t ≡ false
unfolding nexus_grid_grid.Storage.Deposit.Status-discrete
end_of_edge expire = refl
end_of_edge decommission = refl
end_of_edge purge = refl
end_of_edge (abandon why) = refl
end_of_edge send_offer = refl
end_of_edge give_up_offer = refl
end_of_edge cancel_offers = refl
end_of_edge (fail_transit why) = refl

-- A row afterwards: the same deposit on the same side, with its old status or one an edge further.
pub record Kept (before after : Deposit) : Type 0 where
  pub same_id : after.deposit_id ≡ before.deposit_id
  pub same_role : after.role ≡ before.role
  pub step : (after.status ≡ before.status) ⊎ Edge before.role before.status after.status

pub Kept-refl : (row : Deposit) → Kept row row
Kept-refl row = record { same_id = refl; same_role = refl; step = inl refl }

-- What a later loop does to a row.
abbrev pub Late : Deposit → Deposit → Type 0
Late before after = (after ≡ before) ⊎ (Kept before after × (is_underway before.status ≡ true))

-- A row that has moved in an earlier loop is at the end of an edge, and stays there.
pub Kept-Late : (a b c : Deposit) → Kept a b → Late b c → Kept a c
Kept-Late a b c h (inl same) = subst (Kept a) (sym same) h
Kept-Late a b c h (inr (k, underway)) = elim h.step [
  | inr edge ↦ absurd (false≢true (sym (end_of_edge edge) ∙ underway))
  | inl stayed ↦ record {
    same_id = k.same_id ∙ h.same_id;
    same_role = k.same_role ∙ h.same_role;
    step = elim k.step [
      | inl again ↦ inl (again ∙ stayed)
      | inr edge ↦ inr (
          subst (λ r. Edge r a.status c.status) h.same_role
            (subst (λ s. Edge b.role s c.status) stayed edge))
    ];
  }
]

-- The rows of a table before and after, one by one.
abbrev pub Pairs : (Deposit → Deposit → Type 0) → List Deposit → List Deposit → Type 0
Pairs R [] [] = Unit
Pairs R [] (y ∷ ys) = ⊥
Pairs R (x ∷ xs) [] = ⊥
Pairs R (x ∷ xs) (y ∷ ys) = R x y × Pairs R xs ys

abbrev pub KeptAll : List Deposit → List Deposit → Type 0
KeptAll before after = Pairs Kept before after

pub KeptAll-Late : (xs ys zs : List Deposit) → KeptAll xs ys → Pairs Late ys zs → KeptAll xs zs
KeptAll-Late [] [] [] h k = tt
KeptAll-Late [] [] (z ∷ zs) h k = k
KeptAll-Late [] (y ∷ ys) zs h k = absurd h
KeptAll-Late (x ∷ xs) [] zs h k = absurd h
KeptAll-Late (x ∷ xs) (y ∷ ys) [] h k = k
KeptAll-Late (x ∷ xs) (y ∷ ys) (z ∷ zs) h k =
    (Kept-Late x y z h.0 k.0, KeptAll-Late xs ys zs h.1 k.1)

-- A loop relates the rows if its handler does on each row that the query selects.
pub sweep-Pairs :
    (R : Deposit → Deposit → Type 0) (pick : Deposit → Bool)
    (handle : Deposit → Depot → Deposit × Depot)
    → ((row : Deposit) → R row row)
    → ((row : Deposit) (depot : Depot) → pick row ≡ true → R row (handle row depot).0)
    → (rows : List Deposit) (depot : Depot) → Pairs R rows (sweep pick handle rows depot).0
unfolding sweep
sweep-Pairs R pick handle same moved [] depot = tt
sweep-Pairs R pick handle same moved (row ∷ rows) depot = elim (Bool-cases (pick row)) [
  | inl picked ↦
      rw picked
        (moved row depot picked, sweep-Pairs R pick handle same moved rows (handle row depot).1)
  | inr passed ↦ rw passed (same row, sweep-Pairs R pick handle same moved rows depot)
]

-- A later loop, whose query selects only rows that are underway.
pub sweep-Late :
    (pick : Deposit → Bool) (handle : Deposit → Depot → Deposit × Depot)
    → ((row : Deposit) → pick row ≡ true → is_underway row.status ≡ true)
    → ((row : Deposit) (depot : Depot) → pick row ≡ true → Kept row (handle row depot).0)
    → (rows : List Deposit) (depot : Depot) → Pairs Late rows (sweep pick handle rows depot).0
sweep-Late pick handle underway keeps rows depot =
    sweep-Pairs Late pick handle (λ row. inl refl)
      (λ row depot picked. inr (keeps row depot picked, underway row picked)) rows depot
