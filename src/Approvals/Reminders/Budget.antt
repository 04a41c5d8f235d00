-- ===== src/Approvals/Reminders/Budget.antt =====
-- However often a post is checked: how many reminders it gets, how far apart, and its escalation.
use ai_social_brightbean_stu.Common.{
  one_if, ℕ, ◌+◌, ◌≡◌, ◌≤◌, ◌<◌, refl, ◌⊎◌, inl, inr, true, false, Option, none, some, List, [],
  ◌∷◌, arith, leb, Bool-cases, IsSpaced,
}
use ai_social_brightbean_stu.Approvals.Desk.{ApprovalReminder, Stage, fresh_reminder}
use ai_social_brightbean_stu.Approvals.Reminders.{
  max_reminders, Verdict, nothing, remind, escalate, cooling, check_reminder,
}

-- The reminder after checks at these instants.
pub checks : ℕ → List ℕ → ApprovalReminder → ApprovalReminder
checks span [] r = r
checks span (now ∷ later) r = checks span later (check_reminder now span r).0

-- The instants at which a reminder was sent.
pub sent : ℕ → List ℕ → ApprovalReminder → List ℕ
sent span [] r = []
sent span (now ∷ later) r =
    let rest = sent span later (check_reminder now span r).0 in
    elim (check_reminder now span r).1 [ remind ↦ now ∷ rest | _ ↦ rest ]

abbrev pub one_if_escalate : Verdict → ℕ
one_if_escalate escalate = 1
one_if_escalate _ = 0

-- How often the managers were told.
pub escalations : ℕ → List ℕ → ApprovalReminder → ℕ
escalations span [] r = 0
escalations span (now ∷ later) r =
    one_if_escalate (check_reminder now span r).1
    + escalations span later (check_reminder now span r).0

abbrev pub count : List ℕ → ℕ
count [] = 0
count (x ∷ xs) = 1 + count xs

-- A reminder may be sent: none was, or the last one is `span` ago.
abbrev IsReady : ℕ → ℕ → Option ℕ → Type 0
IsReady now span none = Unit
IsReady now span (some last) = last + span ≤ now

ready : (now span : ℕ) (last : Option ℕ) → cooling now span last ≡ false → IsReady now span last
unfolding cooling
ready now span none h = tt
ready now span (some last) h = ground arith

-- The three things that a check can do.
abbrev Checked : ℕ → ℕ → ApprovalReminder → Type 0
Checked now span r =
    (check_reminder now span r ≡ (r, nothing))
    ⊎ ((check_reminder now span r ≡ (record r { escalated = true }, escalate))
        × (r.escalated ≡ false)
        × (max_reminders ≤ r.reminder_count))
    ⊎ ((check_reminder now span r ≡ (
      record r { reminder_count = r.reminder_count + 1; last_reminder_at = some now },
      remind,
    ))
        × (r.reminder_count < max_reminders)
        × IsReady now span r.last_reminder_at)

check_cases : (now span : ℕ) (r : ApprovalReminder) → Checked now span r
unfolding check_reminder
check_cases now span r = elim (Bool-cases (leb max_reminders r.reminder_count)) [
  | inl spent ↦ elim (Bool-cases r.escalated) [
    | inl done ↦ inl (simp (spent, done) refl)
    | inr open_ ↦ inr (inl (simp (spent, open_) refl, open_, ground arith))
  ]
  | inr left ↦ elim (Bool-cases (cooling now span r.last_reminder_at)) [
    | inl wait ↦ inl (simp (left, wait) refl)
    | inr go ↦ inr (inr (simp (left, go) refl, ground arith, ready now span r.last_reminder_at go))
  ]
]

module _ (span : ℕ) where
  sent-count :
      (times : List ℕ) (r : ApprovalReminder)
      → (checks span times r).reminder_count ≡ r.reminder_count + count (sent span times r)
  unfolding checks sent check_reminder
  sent-count [] r = omega arith
  sent-count (now ∷ later) r = ground (arith, sent-count later (check_reminder now span r).0)

  within_budget :
      (times : List ℕ) (r : ApprovalReminder)
      → r.reminder_count ≤ max_reminders
      → (checks span times r).reminder_count ≤ max_reminders
  unfolding checks
  within_budget [] r h = h
  within_budget (now ∷ later) r h = elim (check_cases now span r) [
    | inl e ↦ rw (e, checks) (within_budget later r h)
    | inr (inl (e, open_, spent)) ↦
        rw (e, checks) (within_budget later (record r { escalated = true }) h)
    | inr (inr (e, few, go)) ↦ rw (e, checks) (within_budget later _ (omega arith))
  ]

  escalated_once :
      (times : List ℕ) (r : ApprovalReminder)
      → one_if r.escalated + escalations span times r ≡ one_if (checks span times r).escalated
  unfolding checks escalations
  escalated_once [] r = omega arith
  escalated_once (now ∷ later) r = elim (check_cases now span r) [
    | inl e ↦ simp e (omega (arith, escalated_once later r))
    | inr (inl (e, open_, spent)) ↦
        simp (e, open_) (omega (arith, escalated_once later (record r { escalated = true })))
    | inr (inr (e, few, go)) ↦ simp e (
        omega (
          arith,
          escalated_once later
              (record r { reminder_count = r.reminder_count + 1; last_reminder_at = some now }),
        ))
  ]

  spaced :
      (times : List ℕ) (r : ApprovalReminder) → IsSpaced span r.last_reminder_at (sent span times r)
  unfolding sent
  spaced [] r = tt
  spaced (now ∷ later) r = elim (check_cases now span r) [
    | inl e ↦ simp (e, sent) (spaced later r)
    | inr (inl (e, open_, spent)) ↦ simp (e, sent) (spaced later (record r { escalated = true }))
    | inr (inr (e, few, go)) ↦ simp (e, sent) (after r.last_reminder_at go (spaced later _))
  ]
    where
      after :
          (last : Option ℕ)
          → IsReady now span last
          → IsSpaced span (some now) (
              sent span later
                (record r { reminder_count = r.reminder_count + 1; last_reminder_at = some now }))
          → IsSpaced span last (
              now
              ∷ sent span later
                  (record r { reminder_count = r.reminder_count + 1; last_reminder_at = some now }))
      after none go s = s
      after (some last) go s = (go, s)

  escalated_full :
      (times : List ℕ) (r : ApprovalReminder)
      → (r.escalated ≡ true → max_reminders ≤ r.reminder_count)
      → (checks span times r).escalated ≡ true
      → max_reminders ≤ (checks span times r).reminder_count
  unfolding checks
  escalated_full [] r full = full
  escalated_full (now ∷ later) r full = elim (check_cases now span r) [
    | inl e ↦ rw (e, checks) (escalated_full later r full)
    | inr (inl (e, open_, spent)) ↦
        rw (e, checks) (escalated_full later (record r { escalated = true }) (λ d. spent))
    | inr (inr (e, few, go)) ↦
        rw (e, checks) (escalated_full later _ (λ d. absurd (ground (arith, full d))))
  ]

-- From a fresh reminder, checks at whatever instants send two reminders at most, each a whole
-- threshold or more after the one before, and tell the managers once at most, only after both.
pub reminders_bounded :
    (span post_id : ℕ) (stage : Stage) (times : List ℕ)
    → (count (sent span times (fresh_reminder post_id stage)) ≤ max_reminders)
      × IsSpaced span none (sent span times (fresh_reminder post_id stage))
      × (escalations span times (fresh_reminder post_id stage) ≤ 1)
      × (1 ≤ escalations span times (fresh_reminder post_id stage)
          → count (sent span times (fresh_reminder post_id stage)) ≡ max_reminders)
reminders_bounded span post_id stage times =
    let r = fresh_reminder post_id stage in
    let total = sent-count span times r in
    let budget = within_budget span times r (omega arith) in
    let once = escalated_once span times r in
    (
      omega (arith, total, budget),
      spaced span times r,
      ground (arith, once),
      λ e. omega (
        arith,
        total,
        budget,
        escalated_full span times r (λ d. absurd (ground arith)) (ground (arith, once)),
      ),
    )

-- A post that stays stalled is not forgotten: three checks with a threshold between them send both
-- reminders and then tell the managers.
pub stalled_escalates :
    (span post_id t u v : ℕ) (stage : Stage)
    → t + span ≤ u
    → u ≤ v
    → (sent span (t ∷ u ∷ v ∷ []) (fresh_reminder post_id stage) ≡ t ∷ u ∷ [])
      × (escalations span (t ∷ u ∷ v ∷ []) (fresh_reminder post_id stage) ≡ 1)
unfolding sent escalations check_reminder cooling
stalled_escalates span post_id t u v stage h k = ground arith
