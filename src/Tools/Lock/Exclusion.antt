-- ===== src/Tools/Lock/Exclusion.antt =====
-- What the advisory lock promises (src/tools.cpp `AdvisoryLock`): alone, and among processes whose
-- steps interleave.
use jjmcp.Base.{
  ℕ, zero, suc, ◌+◌, ◌-◌, ◌*◌, ◌≡◌, ◌≢◌, ◌⊎◌, inl, inr, refl, sym, ◌∙◌, Bool, true, false, [], ◌∷◌,
  ◌++◌, Option, none, some, ◌==◌, if◌then◌else◌, arith, Bool-cases, ==_iff, &&_split,
}
use mathlib.Core.Bool.{false≢true}
use jjmcp.Text.{Bytes}
use jjmcp.Text.Words.{is_digit, all_digits}
use jjmcp.Text.Decimal.{number}
use jjmcp.Tools.Lock.{
  lock_content, leading_number, read_pid, is_stale, Local, opening, unlinking, holding, refused,
  lock_step,
}

pub leading_number-append :
    (s rest : Bytes) (n : ℕ)
    → all_digits s ≡ true
    → leading_number (s ++ b' ' ∷ rest) n ≡ number s n
unfolding leading_number all_digits number
leading_number-append [] rest n h = refl
leading_number-append (c ∷ s) rest n h =
    let (digit, digits) = &&_split (is_digit c) (all_digits s) h in
    rw (digit) (leading_number-append s rest (n * 10 + (c - b'0')) digits)

-- The state of all: the file, and where each process is.
pub record World : Type 0 where
  pub file : Option Bytes
  pub local : ℕ → Local

abbrev pub at_process : ℕ → Local → (ℕ → Local) → ℕ → Local
at_process p l local q = if p == q then l else local q

-- Steps of the processes in any order; process `p` writes its own content.
abbrev pub world_step : (ℕ → Bool) → Bytes → (ℕ → Bytes) → ℕ → World → World
world_step gone path ids p w =
    let (file, l) = lock_step gone path (lock_content p (ids p)) w.file (w.local p) in
    record { file = file; local = at_process p l w.local }

pub data Run (gone : ℕ → Bool) (path : Bytes) (ids : ℕ → Bytes) : World → World → Type 0 where
  stay : {w : World} → Run gone path ids w w
  step :
      {w w' : World} (p : ℕ)
      → Run gone path ids w w'
      → Run gone path ids w (world_step gone path ids p w')

-- No process is about to unlink the file, one that holds the lock has the file there, and no two
-- hold it.
pub record IsSafe (w : World) : Type 0 where
  pub none_unlinks : (p n : ℕ) → w.local p ≢ unlinking n
  pub has_file : (p : ℕ) → w.local p ≡ holding → w.file ≢ none
  pub one_holds : (p q : ℕ) → w.local p ≡ holding → w.local q ≡ holding → p ≡ q

at_process_inv :
    (p : ℕ) (l : Local) (f : ℕ → Local) (q : ℕ) (x : Local)
    → at_process p l f q ≡ x
    → ((p ≡ q) × (l ≡ x)) ⊎ ((p ≢ q) × (f q ≡ x))
at_process_inv p l f q x h = elim (Bool-cases (p == q)) [
  | inl e ↦ inl ((==_iff p q).0 e, rw e at h)
  | inr e ↦ inr (λ same. false≢true (sym e ∙ (==_iff p q).1 same), rw e at h)
]

-- What a step does where no process id is stale: it takes the free lock, it releases the held one,
-- or it leaves the file alone.
abbrev StepCases : Bytes → Option Bytes → Local → Option Bytes → Local → Type 0
StepCases mine file l file' l' =
    ((file ≡ none) × (file' ≡ some mine) × (l' ≡ holding))
    ⊎ (((l ≡ holding) × (l' ≢ holding) × ((n : ℕ) → l' ≢ unlinking n))
        ⊎ ((file' ≡ file) × (l' ≢ holding) × ((n : ℕ) → l' ≢ unlinking n)))

stale_never :
    (gone : ℕ → Bool) (content : Bytes) → ((n : ℕ) → gone n ≡ false) → is_stale gone content ≡ false
unfolding is_stale
stale_never gone content living = rw (living (read_pid content)) (ground arith)

lock_step_cases :
    (gone : ℕ → Bool) (path mine : Bytes) (file : Option Bytes) (l : Local)
    → ((n : ℕ) → gone n ≡ false)
    → ((n : ℕ) → l ≢ unlinking n)
    → StepCases mine file l (lock_step gone path mine file l).0 (lock_step gone path mine file l).1
unfolding lock_step
lock_step_cases gone path mine file (opening zero) living h = inr (inr (refl, λ e. cc, λ n e. cc))
lock_step_cases gone path mine none (opening (suc n)) living h = inl (refl, refl, refl)
lock_step_cases gone path mine (some content) (opening (suc n)) living h =
    rw (stale_never gone content living) (inr (inr (refl, λ e. cc, λ n e. cc)))
lock_step_cases gone path mine file (unlinking n) living h = absurd (h n refl)
lock_step_cases gone path mine file holding living h = inr (inl (refl, λ e. cc, λ n e. cc))
lock_step_cases gone path mine file (refused x) living h = inr (inr (refl, λ e. cc, λ n e. cc))

module _ (gone : ℕ → Bool) (path : Bytes) (ids : ℕ → Bytes)
    (living : (n : ℕ) → gone n ≡ false) where
  -- The process that took the free lock is the only one to hold it.
  takes-IsSafe :
      (p : ℕ) (w : World) (mine : Bytes)
      → IsSafe w
      → w.file ≡ none
      → IsSafe (record { file = some mine; local = at_process p holding w.local })
  takes-IsSafe p w mine safe free = record {
    none_unlinks = λ q n h. elim (at_process_inv p holding w.local q (unlinking n) h) [
      | inl (_, e) ↦ cc
      | inr (_, e) ↦ safe.none_unlinks q n e
    ];
    has_file = λ q h e. cc;
    one_holds = λ q r hq hr. sym (only q hq) ∙ only r hr;
  }
    where
      only : (q : ℕ) → at_process p holding w.local q ≡ holding → p ≡ q
      only q h = elim (at_process_inv p holding w.local q holding h) [
        | inl (e, _) ↦ e
        | inr (_, e) ↦ absurd (safe.has_file q e free)
      ]

  -- A process that does not hold the lock behind its step leaves the others as they are.
  leaves-IsSafe :
      (p : ℕ) (w : World) (file : Option Bytes) (l : Local)
      → IsSafe w
      → l ≢ holding
      → ((n : ℕ) → l ≢ unlinking n)
      → ((q : ℕ) → p ≢ q → w.local q ≡ holding → file ≢ none)
      → IsSafe (record { file = file; local = at_process p l w.local })
  leaves-IsSafe p w file l safe free quiet kept = record {
    none_unlinks = λ q n h. elim (at_process_inv p l w.local q (unlinking n) h) [
      | inl (_, e) ↦ quiet n e
      | inr (_, e) ↦ safe.none_unlinks q n e
    ];
    has_file = λ q h. kept q (other q h).0 (other q h).1;
    one_holds = λ q r hq hr. safe.one_holds q r (other q hq).1 (other r hr).1;
  }
    where
      other : (q : ℕ) → at_process p l w.local q ≡ holding → (p ≢ q) × (w.local q ≡ holding)
      other q h = elim (at_process_inv p l w.local q holding h) [
        | inl (_, e) ↦ absurd (free e)
        | inr e ↦ e
      ]

  step-IsSafe : (p : ℕ) (w : World) → IsSafe w → IsSafe (world_step gone path ids p w)
  step-IsSafe p w safe =
      let mine = lock_content p (ids p) in
      elim (lock_step_cases gone path mine w.file (w.local p) living (safe.none_unlinks p)) [
        | inl (free, written, holds) ↦ rw (written, holds) (takes-IsSafe p w mine safe free)
        | inr (inl (held, left, quiet)) ↦
            leaves-IsSafe p w _ _ safe left quiet
              (λ q apart e. absurd (apart (safe.one_holds p q held e)))
        | inr (inr (same, left, quiet)) ↦
            leaves-IsSafe p w _ _ safe left quiet
              (λ q apart e gone_file. safe.has_file q e (sym same ∙ gone_file))
      ]

  -- While no process id is found gone, the processes take turns in any order without two of them ever
  -- holding the lock, from any state that is safe: no process is about to unlink the file, a holder
  -- has the file in place, and there is at most one.
  pub one_holder :
      (w w' : World)
      → IsSafe w
      → Run gone path ids w w'
      → (p q : ℕ) → w'.local p ≡ holding
      → w'.local q ≡ holding
      → p ≡ q
  one_holder w w' safe run = (go run).one_holds
    where
      go : {v : World} → Run gone path ids w v → IsSafe v
      go stay = safe
      go (step p earlier) = step-IsSafe p _ (go earlier)
