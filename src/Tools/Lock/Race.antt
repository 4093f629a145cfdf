-- ===== src/Tools/Lock/Race.antt =====
-- Two processes that find the same stale lock file (src/tools.cpp `AdvisoryLock`).
use jjmcp.Base.{
  ℕ, ◌≡◌, ◌≢◌, refl, sym, ap, ◌∙◌, Bool, true, false, Option, none, some, ◌==◌, Bool-cases, inl,
  inr, ==_iff, ==_refl,
}
use jjmcp.Text.{Bytes}
use jjmcp.Tools.Lock.{lock_content, is_stale, Local, opening, unlinking, holding, lock_step}
use jjmcp.Tools.Lock.Exclusion.{World, at_process, world_step, Run, stay, step}

==_apart : (p q : ℕ) → p ≢ q → (p == q) ≡ false
==_apart p q h = elim (Bool-cases (p == q)) [ inl e ↦ absurd (h ((==_iff p q).0 e)) | inr e ↦ e ]

module _ (gone : ℕ → Bool) (path : Bytes) (ids : ℕ → Bytes) where
  here : (p : ℕ) (l : Local) (f : ℕ → Local) → at_process p l f p ≡ l
  here p l f = rw (==_refl p) refl

  elsewhere : (p q : ℕ) (l : Local) (f : ℕ → Local) → p ≢ q → at_process p l f q ≡ f q
  elsewhere p q l f h = rw (==_apart p q h) refl

  -- The file, and where two of the processes are.
  abbrev IsAt : ℕ → ℕ → World → Option Bytes → Local → Local → Type 0
  IsAt p q w file l k = (w.file ≡ file) × (w.local p ≡ l) × (w.local q ≡ k)

  swapped :
      (p q : ℕ) (w : World) (file : Option Bytes) (l k : Local)
      → IsAt p q w file l k
      → IsAt q p w file k l
  swapped p q w file l k (e, a, b) = (e, b, a)

  moves :
      (p q : ℕ)
      → p ≢ q
      → (w : World) (file file' : Option Bytes) (l l' k : Local) → IsAt p q w file l k
      → lock_step gone path (lock_content p (ids p)) file l ≡ (file', l')
      → IsAt p q (world_step gone path ids p w) file' l' k
  moves p q apart w file file' l l' k (e, a, b) h =
      let moved : lock_step gone path (lock_content p (ids p)) w.file (w.local p) ≡ (file', l') =
        rw (e, a) h in
      (
        ap (λ r. r.0) moved,
        here p _ w.local ∙ ap (λ r. r.1) moved,
        elsewhere p q _ w.local apart ∙ b,
      )

  finds_stale :
      (mine content : Bytes)
      → is_stale gone content ≡ true
      → lock_step gone path mine (some content) (opening 2) ≡ (some content, unlinking 1)
  unfolding lock_step
  finds_stale mine content stale = rw stale

  -- Every process is about to open the file, which names a process that is gone.
  abbrev pub stale_world : Bytes → World
  stale_world content = record { file = some content; local = λ _. opening 2 }

  -- Whoever they are, two processes that both find the stale file before one of them unlinks it can
  -- both come to hold the lock: the second unlinks the file that the first has written.
  pub stale_race :
      (content : Bytes) (p q : ℕ)
      → p ≢ q
      → is_stale gone content ≡ true
      → (w : World) × Run gone path ids (stale_world content) w
        × (w.local p ≡ holding)
        × (w.local q ≡ holding)
  unfolding lock_step
  stale_race content p q apart stale =
      let turn = world_step gone path ids in
      let apart' : q ≢ p = λ e. apart (sym e) in
      let w1 = turn p (stale_world content) in
      let w2 = turn q w1 in
      let w3 = turn p w2 in
      let w4 = turn p w3 in
      let w5 = turn q w4 in
      let c = some content in
      let mine = some (lock_content p (ids p)) in
      let h1 =
        moves p q apart (stale_world content) c c (opening 2) (unlinking 1) (opening 2)
          (refl, refl, refl) (finds_stale (lock_content p (ids p)) content stale) in
      let h2 =
        moves q p apart' w1 c c (opening 2) (unlinking 1) (unlinking 1)
          (swapped p q w1 c (unlinking 1) (opening 2) h1)
          (finds_stale (lock_content q (ids q)) content stale) in
      let h3 =
        moves p q apart w2 c none (unlinking 1) (opening 1) (unlinking 1)
          (swapped q p w2 c (unlinking 1) (unlinking 1) h2) refl in
      let h4 = moves p q apart w3 none mine (opening 1) holding (unlinking 1) h3 refl in
      let h5 =
        moves q p apart' w4 mine none (unlinking 1) (opening 1) holding
          (swapped p q w4 mine holding (unlinking 1) h4) refl in
      let h6 =
        moves q p apart' w5 none (some (lock_content q (ids q))) (opening 1) holding holding h5
          refl in
      let (_, at_q, at_p) = h6 in
      (turn q w5, step q (step q (step p (step p (step q (step p stay))))), at_p, at_q)
