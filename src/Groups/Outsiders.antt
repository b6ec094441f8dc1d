-- ===== src/Groups/Outsiders.antt =====
-- Runs of the inbox in which every sender lacks `role:assign`.
use nexus_grid_grid.Prelude.{
  ◌≡◌, refl, sym, ap, ◌∙◌, Bool, true, false, ◌⊎◌, inl, inr, List, [], ◌∷◌, String, contains,
  text_key, pair_key, Bool-cases, arith,
}
use nexus_grid_grid.Groups.{Tables, has_permission, perm_role_assign, permissions_of}
use nexus_grid_grid.Groups.Handlers.{GroupFrame, Outside}
use nexus_grid_grid.Groups.Inbox.{InboxNode, dispatch_inbound_frame}
use nexus_grid_grid.Groups.Steps.{dispatch_all, OpensTo, Handled, dispatch-step}
use nexus_grid_grid.Groups.Powers.{
  GivesBaseline, GivesBaseline-same, GivesBaseline-permissions, baseline,
}
use nexus_grid_grid.Groups.Escalation.{is_governed, apply-GivesBaseline, refusal-governed}

-- None of a set has a permission in any group.
abbrev pub Lacks : String → (String → Bool) → Tables → Type 0
Lacks perm group t = (g p : String) → group p ≡ true → has_permission t g p perm ≡ false

unchanged : (t : Tables) → GivesBaseline t t
unchanged t = GivesBaseline-same t t refl refl

-- The set still lacks a permission that the baseline does not give.
pub Lacks-kept :
    (perm : String) (group : String → Bool) (before after : Tables)
    → GivesBaseline before after
    → ((g : String) → contains (baseline g before) perm ≡ false)
    → Lacks perm group before
    → Lacks perm group after
Lacks-kept perm group before after h plain lack g p member =
    elim (Bool-cases (has_permission after g p perm)) [
      | inr e ↦ e
      | inl e ↦
          ground
            (arith, GivesBaseline-permissions before after g p perm h e, plain g, lack g p member)
    ]

pub plain_kept :
    (perm : String) (before after : Tables)
    → GivesBaseline before after
    → ((g : String) → contains (baseline g before) perm ≡ false)
    → (g : String) → contains (baseline g after) perm ≡ false
plain_kept perm before after h plain g =
    ap (λ roles. contains (permissions_of g ("member" ∷ []) roles) perm) h.roles_kept ∙ plain g

allowed-GivesBaseline :
    (group : String → Bool) (o : Outside)
    → Handled group o
        (λ before after. Lacks perm_role_assign group before → GivesBaseline before after)
allowed-GivesBaseline group o now f t member allowed lack =
    elim (Bool-cases (is_governed f.payload)) [
      | inl e ↦ ground (
        arith,
        allowed,
        refusal-governed f.channel f.sender_pubkey f.payload t e
            (lack f.channel f.sender_pubkey member),
      )
      | inr e ↦ apply-GivesBaseline o now f.channel f.sender_pubkey f.payload t e
    ]

module _ (group : String → Bool) (o : Outside) (opens : OpensTo group o) where
  pub dispatch-GivesBaseline :
      (now : String) (frame : GroupFrame) (n : InboxNode)
      → Lacks perm_role_assign group n.tables
      → GivesBaseline n.tables (dispatch_inbound_frame o now frame n).0.tables
  dispatch-GivesBaseline now frame n =
      dispatch-step group o opens
        (λ before after. Lacks perm_role_assign group before → GivesBaseline before after)
        (λ t lack. unchanged t) (allowed-GivesBaseline group o) now frame n

  -- Frames whose senders all lack `role:assign` when they start to arrive, in a node in whose groups
  -- the role `member` does not hold it, give nobody a permission: who holds one at the end held it
  -- at the start, or has it of the role `member` of the group, whatever the frames, their order and
  -- their number.
  pub dispatch_all-permissions :
      (frames : List (String × GroupFrame)) (n : InboxNode)
      → ((g : String) → contains (baseline g n.tables) perm_role_assign ≡ false)
      → Lacks perm_role_assign group n.tables
      → (g p perm : String) → has_permission (dispatch_all o frames n).tables g p perm ≡ true
      → (has_permission n.tables g p perm ≡ true) ⊎ (contains (baseline g n.tables) perm ≡ true)
  unfolding dispatch_all
  dispatch_all-permissions [] n plain lack g p perm e = inl e
  dispatch_all-permissions ((now, frame) ∷ frames) n plain lack g p perm e =
      let after = (dispatch_inbound_frame o now frame n).0 in
      let step = dispatch-GivesBaseline now frame n lack in
      elim (dispatch_all-permissions frames after
        (plain_kept perm_role_assign n.tables after.tables step plain)
        (Lacks-kept perm_role_assign group n.tables after.tables step plain lack) g p perm e) [
          | inl before ↦ GivesBaseline-permissions n.tables after.tables g p perm step before
          | inr base ↦ inr (
              ap (λ roles. contains (permissions_of g ("member" ∷ []) roles) perm)
                (sym step.roles_kept)
              ∙ base)
        ]
