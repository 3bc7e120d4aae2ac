-- ===== src/Tool/Approval/SingleUse.antt =====
-- An approval is used once, whatever the interleaving of the workers that claim it.
use careerops_agent.Shared.{
  ℕ, ◌+◌, ◌≤◌, ◌≡◌, ◌≢◌, refl, inl, inr, true, false, ◌&&◌, subst, sym, List, [], ◌∷◌, row_count,
  update_where, is_none, ==_eq, Bool-cases, ◌==◌, arith, All, Eq_nat, Eq_text, Eq_option,
  if◌then◌else◌,
}
use careerops_agent.Tool.Rows.{ToolCallRecord, ToolApproval}
use careerops_agent.Tool.Approval.{claimable, consumed, claim}

-- No row with the id `i` is left to claim.
abbrev Spent : ℕ → List ToolApproval → Type 0
Spent i = All (λ a. a.id ≡ i → is_none a.consumed_at ≡ false)

-- Primary keys differ.
abbrev pub UniqueIds : List ToolApproval → Type 0
UniqueIds [] = Unit {0}
UniqueIds (a ∷ rows) = All (λ b. b.id ≢ a.id) rows × UniqueIds rows

module _ (i : ℕ) (r : ToolCallRecord) (now : ℕ) where
  unclaimable :
      (a : ToolApproval) → (a.id ≡ i → is_none a.consumed_at ≡ false) → claimable i r now a ≡ false
  unclaimable a h = ground (arith, h)

  row_count-Spent :
      (rows : List ToolApproval) → Spent i rows → row_count (claimable i r now) rows ≡ 0
  row_count-Spent [] h = refl
  row_count-Spent (a ∷ rows) h = rw (unclaimable a h.0) (omega (arith, row_count-Spent rows h.1))

  Spent-claim :
      (j : ℕ) (rows : List ToolApproval)
      → Spent j rows
      → Spent j (update_where (claimable i r now) (consumed now) rows)
  Spent-claim j [] h = tt
  Spent-claim j (a ∷ rows) h = (λ e. ground (arith, h.0), Spent-claim j rows h.1)

  absent-claim :
      (j : ℕ) (rows : List ToolApproval)
      → All (λ b. b.id ≢ j) rows
      → All (λ b. b.id ≢ j) (update_where (claimable i r now) (consumed now) rows)
  absent-claim j [] h = tt
  absent-claim j (a ∷ rows) h = (λ e. ground (arith, h.0), absent-claim j rows h.1)

  absent-Spent : (rows : List ToolApproval) → All (λ b. b.id ≢ i) rows → Spent i rows
  absent-Spent [] h = tt
  absent-Spent (a ∷ rows) h = (λ e. absurd (h.0 e), absent-Spent rows h.1)

  UniqueIds-claim :
      (rows : List ToolApproval)
      → UniqueIds rows
      → UniqueIds (update_where (claimable i r now) (consumed now) rows)
  UniqueIds-claim [] u = tt
  UniqueIds-claim (a ∷ rows) u = elim (Bool-cases (claimable i r now a)) [
    | inl t ↦ rw t (absent-claim a.id rows u.0, UniqueIds-claim rows u.1)
    | inr f ↦ rw f (absent-claim a.id rows u.0, UniqueIds-claim rows u.1)
  ]

  claimable-id : (a : ToolApproval) → claimable i r now a ≡ true → a.id ≡ i
  claimable-id a h = ground arith

  claimed-Spent :
      (rows : List ToolApproval)
      → UniqueIds rows
      → row_count (claimable i r now) rows ≡ 1
      → Spent i (update_where (claimable i r now) (consumed now) rows)
  claimed-Spent [] u h = tt
  claimed-Spent (a ∷ rows) u h = elim (Bool-cases (claimable i r now a)) [
    | inl t ↦
        rw t (λ _. refl, Spent-claim i rows (absent-Spent rows (rw (claimable-id a t) at u.0)))
    | inr f ↦ rw f (
      λ e.
          absurd
            (omega (arith, row_count-Spent rows (absent-Spent rows (rw e at (u.0))), rw f at h)),
      claimed-Spent rows u.1 (omega (arith, rw f at h)),
    )
  ]

-- An attempt of one worker: the approval that its `select` found, its call, and its clock.
pub record Attempt : Type 0 where
  pub approval : ℕ
  pub call : ToolCallRecord
  pub now : ℕ

-- How many of the attempts on the approval `i` win, in the order of their `update` statements.
unfoldable pub wins : ℕ → List Attempt → List ToolApproval → ℕ
wins i [] rows = 0
wins i (t ∷ later) rows =
    let (hit, rows') = claim t.approval t.call t.now rows in
    (if hit && t.approval == i then 1 else 0) + wins i later rows'

wins-Spent :
    (i : ℕ) (attempts : List Attempt) (rows : List ToolApproval)
    → Spent i rows
    → wins i attempts rows ≡ 0
unfolding wins claim
wins-Spent i [] rows s = refl
wins-Spent i (t ∷ later) rows s =
    let tail = wins-Spent i later _ (Spent-claim t.approval t.call t.now i rows s) in
    elim (Bool-cases (t.approval == i)) [
      | inl e ↦
          let spent = subst (λ j. Spent j rows) (sym (==_eq t.approval i e)) s in
          ground (arith, tail, row_count-Spent t.approval t.call t.now rows spent)
      | inr e ↦ ground (arith, tail)
    ]

-- Whatever workers, calls and clocks meet at a table with distinct ids, at most one attempt wins an
-- approval.
pub wins-le_one :
    (i : ℕ) (attempts : List Attempt) (rows : List ToolApproval)
    → UniqueIds rows
    → wins i attempts rows ≤ 1
unfolding wins claim
wins-le_one i [] rows u = omega arith
wins-le_one i (t ∷ later) rows u =
    let after = update_where (claimable t.approval t.call t.now) (consumed t.now) rows in
    elim (Bool-cases (row_count (claimable t.approval t.call t.now) rows == 1)) [
      | inl hit ↦ elim (Bool-cases (t.approval == i)) [
        | inl e ↦
            let spent = claimed-Spent t.approval t.call t.now rows u (==_eq _ _ hit) in
            let over = subst (λ j. Spent j after) (==_eq t.approval i e) spent in
            ground (arith, wins-Spent i later after over)
        | inr e ↦
            ground
              (arith, wins-le_one i later after (UniqueIds-claim t.approval t.call t.now rows u))
      ]
      | inr miss ↦
          ground (arith, wins-le_one i later after (UniqueIds-claim t.approval t.call t.now rows u))
    ]
