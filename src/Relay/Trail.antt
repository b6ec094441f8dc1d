-- ===== src/Relay/Trail.antt =====
-- Histories of a binding.
use nexus_grid_grid.Prelude.{
  Bool, true, false, ◌&&◌, ◌≡◌, ◌≢◌, refl, sym, ap, ◌∙◌, inl, inr, List, [], ◌∷◌, ◌++◌, some,
  String, any, ◌==◌, nat_eq, text_key, arith, Bool-cases, Option-cases,
}
use nexus_grid_grid.Prelude.Text.{strip}
use nexus_grid_grid.Relay.{
  RelayState, starting, validating, syncing, online, offline, reconnecting, retired,
  relay_state_key, relay_state_text, can_transition, relay_state_of, Binding, Change, enter,
  move_from, same_lowered, move_to_named, transition, Request, settle, request_all,
}

-- The changes, in order, lead along legal transitions from the first state to the second.
pub data Trail (from : RelayState) : List Change → RelayState → Type 0 where
  here : Trail from [] from
  then_to :
      {log : List Change} {old target : RelayState} (reason : String)
      → Trail from log old
      → can_transition old target ≡ true
      → Trail from (log ++ record { old = old; target = target; reason = reason } ∷ []) target

relay_state_of-text : (s : RelayState) → relay_state_of (relay_state_text s) ≡ some s
unfolding relay_state_of
relay_state_of-text = elim [
  | starting ↦ refl
  | validating ↦ refl
  | syncing ↦ refl
  | online ↦ refl
  | offline ↦ refl
  | reconnecting ↦ refl
  | retired ↦ refl
]

-- The binding's column names a state, and the changes so far lead to it.
pub record IsTraced (from : RelayState) (binding : Binding) (log : List Change) : Type 0 where
  pub present : RelayState
  pub named : relay_state_of binding.state ≡ some present
  pub trail : Trail from log present
  pub probed : present ≡ online → from ≢ online → binding.consecutive_probe_failures ≡ 0

settle-move_from :
    (from : RelayState) (now reason : String) (target : RelayState) (binding : Binding)
    (log : List Change)
    → IsTraced from binding log
    → let after =
        settle (move_from now (relay_state_of binding.state) target reason binding) binding log in
      IsTraced from after.0 after.1
unfolding settle move_from enter
settle-move_from from now reason target binding log h =
    rw (h.named, move_from)
      (elim (Bool-cases (can_transition h.present target)) [
        | inl legal ↦ rw legal (record {
          present = target;
          named = relay_state_of-text target;
          trail = then_to reason h.trail legal;
          probed = λ e n. ground arith;
        })
        | inr refused ↦ rw refused h
      ])

transition-IsTraced :
    (from : RelayState) (now new_state reason : String) (binding : Binding) (log : List Change)
    → IsTraced from binding log
    → let after = settle (transition now binding new_state reason) binding log in
      IsTraced from after.0 after.1
unfolding settle transition move_to_named
transition-IsTraced from now new_state reason binding log h =
    elim (Bool-cases (same_lowered (strip binding.state) (strip new_state))) [
      | inl e ↦ rw e h
      | inr e ↦ rw e (elim (Option-cases (relay_state_of new_state)) [
        | inl u ↦ rw (u, move_to_named) h
        | inr (target, k) ↦
            rw (k, move_to_named) (settle-move_from from now reason target binding log h)
      ])
    ]

request_all-IsTraced :
    (from : RelayState) (rs : List Request) (binding : Binding) (log : List Change)
    → IsTraced from binding log
    → IsTraced from (request_all rs binding log).0 (request_all rs binding log).1
unfolding request_all
request_all-IsTraced from [] binding log h = h
request_all-IsTraced from (r ∷ rs) binding log h =
    let after = settle (transition r.at binding r.new_state r.reason) binding log in
    request_all-IsTraced from rs after.0 after.1
      (transition-IsTraced from r.at r.new_state r.reason binding log h)

-- Whatever is requested of a binding, in whatever spelling, its column goes on naming a state, and
-- the audit events are the run of legal transitions that leads there from the first state; a binding
-- that has come online since has no probe failure counted.
pub request_all-Trail :
    (from : RelayState) (rs : List Request) (binding : Binding)
    → relay_state_of binding.state ≡ some from
    → IsTraced from (request_all rs binding []).0 (request_all rs binding []).1
request_all-Trail from rs binding h =
    request_all-IsTraced from rs binding []
      (record { present = from; named = h; trail = here; probed = λ e n. absurd (n e) })

out_of_retired : (t : RelayState) → can_transition retired t ≡ false
unfolding can_transition
out_of_retired t = ground arith

into_online : (old : RelayState) → can_transition old online ≡ true → old ≡ syncing
unfolding can_transition
into_online old h = ground arith

-- An event that moves a binding from syncing to online.
abbrev pub comes_online : Change → Bool
comes_online change = (change.old == syncing) && (change.target == online)

any-append :
    (log : List Change) (change : Change)
    → comes_online change ≡ true
    → any comes_online (log ++ change ∷ []) ≡ true
any-append [] change h = ground arith
any-append (c ∷ log) change h = ground (arith, any-append log change h)

some_inj : {a b : RelayState} → some a ≡ some b → a ≡ b
some_inj p = ground arith

pub online_through_syncing :
    {s t : RelayState} {log : List Change}
    → Trail s log t
    → s ≢ online
    → t ≡ online
    → any comes_online log ≡ true
online_through_syncing here n e = absurd (n e)
online_through_syncing (then_to {log = l} {old = o} {target = t} reason r legal) n e =
    any-append l (record { old = o; target = t; reason = reason })
      (ground (arith, e, into_online o (ap (can_transition o) (sym e) ∙ legal)))

-- A binding that was not online and reads online after some requests went through syncing: one audit
-- event leads from syncing to online. Its count of failed probes is zero.
pub request_all_online :
    (from : RelayState) (rs : List Request) (binding : Binding)
    → relay_state_of binding.state ≡ some from
    → from ≢ online
    → relay_state_of (request_all rs binding []).0.state ≡ some online
    → (any comes_online (request_all rs binding []).1 ≡ true)
      × ((request_all rs binding []).0.consecutive_probe_failures ≡ 0)
request_all_online from rs binding h n e =
    let traced = request_all-Trail from rs binding h in
    let now : traced.present ≡ online = some_inj (sym traced.named ∙ e) in
    (online_through_syncing traced.trail n now, traced.probed now n)

settle_retired :
    (now new_state reason : String) (binding : Binding) (log : List Change)
    → relay_state_of binding.state ≡ some retired
    → settle (transition now binding new_state reason) binding log ≡ (binding, log)
unfolding settle transition move_to_named move_from
settle_retired now new_state reason binding log h =
    elim (Bool-cases (same_lowered (strip binding.state) (strip new_state))) [
      | inl e ↦ rw e refl
      | inr e ↦ rw e (elim (Option-cases (relay_state_of new_state)) [
        | inl u ↦ rw (u, move_to_named) refl
        | inr (target, k) ↦ rw (k, move_to_named) (rw (h, move_from) refl)
      ])
    ]

-- No request changes a retired binding, and none is logged.
pub request_all_retired :
    (rs : List Request) (binding : Binding) (log : List Change)
    → relay_state_of binding.state ≡ some retired
    → request_all rs binding log ≡ (binding, log)
unfolding request_all
request_all_retired [] binding log h = refl
request_all_retired (r ∷ rs) binding log h =
    rw (settle_retired r.at r.new_state r.reason binding log h)
      (request_all_retired rs binding log h)
