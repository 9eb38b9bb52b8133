-- ===== src/Primitives/Unwoken.antt =====
-- A sleeper that `semaphore_wake_waiters` of src/fastipc/_primitives/_primitives.c passes over.
use pyfastipc.Base.{
  ℕ, zero, suc, ◌+◌, ◌-◌, ◌≤◌, ◌<◌, ◌≡◌, ◌≢◌, refl, sym, ap, ◌∙◌, inl, inr, true, false, Bool-cases,
  List, [], ◌∷◌, ◌++◌, replicate, ltb, ◌==◌, ==_iff, if◌then◌else◌, arith,
}
use mathlib.Core.Path.{subst}
use pyfastipc.Primitives.Semaphore.{uint32_max, wake_waiters}
use pyfastipc.Primitives.Tally.{
  Tally, Call, Stage, resting, rousing, spinning, parked, Act, begin_post, begin_wait, onward, act,
  Crowd, put_stage, acts, rouses, roused_all, Goes, here, next, opening,
}

-- Accesses of one process, while nobody else acts.
abbrev local : List Act → Stage × Tally → Stage × Tally
local [] x = x
local (a ∷ later) (stage, t) = local later (act a stage t)

-- Spins that find no token.
spin_dry :
    (call : Call) (left : ℕ) (rest : List Act) (t : Tally)
    → t.count ≡ 0
    → local (replicate left onward ++ rest) (spinning call left, t)
      ≡ local rest (spinning call zero, t)
unfolding act
spin_dry call zero rest t e = refl
spin_dry call (suc left) rest t e =
    let dry : ltb 0 t.count ≡ false = ground (arith, e) in
    rw (dry, local) (spin_dry call left rest t e)

abbrev park : Call → List Act
park call = begin_wait call ∷ replicate call.spin onward ++ onward ∷ onward ∷ []

-- A call of `wait` with no token there goes to sleep.
local-park :
    (call : Call) (t : Tally)
    → call.blocking ≡ true
    → t.count ≡ 0
    → local (park call) (resting, t) ≡ (parked call, t)
unfolding act
local-park call t b e =
    let empty : (t.count == 0) ≡ true = ground (arith, e) in
    spin_dry call call.spin (onward ∷ onward ∷ []) t e ∙ rw (b, empty)

-- `post` of one token, up to the call of futex
abbrev post_one : List Act
post_one = begin_post 1 ∷ onward ∷ onward ∷ []

-- The call reaches futex where the count was 0, and only there.
local-post_one :
    (t : Tally)
    → t.count < uint32_max
    → local post_one (resting, t) ≡ (
      if t.count == 0 then rousing 1 else resting,
      record t { count = t.count + 1; added = t.added + 1 },
    )
unfolding act wake_waiters
local-post_one t h = elim (Bool-cases (t.count == 0)) [
  | inl nothing ↦
      let fits : ltb 4294967294 t.count ≡ false = ground arith in
      let same : (t.count == t.count) ≡ true = (==_iff t.count t.count).1 refl in
      rw (fits, same, nothing)
  | inr some_there ↦
      let fits : ltb 4294967294 t.count ≡ false = ground arith in
      let same : (t.count == t.count) ≡ true = (==_iff t.count t.count).1 refl in
      rw (fits, same, some_there)
]

local-take :
    (call : Call) (left : ℕ) (t : Tally)
    → 0 < t.count
    → local (onward ∷ onward ∷ []) (spinning call (suc left), t)
      ≡ (resting, record t { count = t.count - 1; taken = t.taken + 1 })
unfolding act
local-take call left t h =
    let there : ltb 0 t.count ≡ true = ground arith in
    let same : (t.count == t.count) ≡ true = (==_iff t.count t.count).1 refl in rw (there, same)

-- The process `x` makes an access.
act_at :
    (x : ℕ) (a : Act) (X : Stage) (F G : ℕ → Stage) (s : Crowd) (t : Tally)
    → F x ≡ X
    → put_stage x (act a X t).0 F ≡ G
    → Goes s (record { tally = t; stage = F })
    → Goes s (record { tally = (act a X t).1; stage = G })
act_at x a X F G s t e put g =
    next g (acts x a (rw e (ap (λ H. record { tally = (act a X t).1; stage = H }) (sym put))))

module _ (p q r : ℕ) (pq : p ≢ q) (rp : r ≢ p) (rq : r ≢ q) where
  -- Three processes in calls, and all others outside.
  abbrev trio : Stage → Stage → Stage → ℕ → Stage
  trio P Q R x = if x == p then P else if x == q then Q else if x == r then R else resting

  abbrev Scene : Stage → Stage → Stage → Tally → Type 0
  Scene P Q R t = Goes (opening 0) (record { tally = t; stage = trio P Q R })

  at_p : (P Q R : Stage) → trio P Q R p ≡ P
  at_p P Q R = ground arith

  at_q : (P Q R : Stage) → trio P Q R q ≡ Q
  at_q P Q R = ground (arith, pq)

  at_r : (P Q R : Stage) → trio P Q R r ≡ R
  at_r P Q R = ground (arith, rp, rq)

  put_p : (X P Q R : Stage) → put_stage p X (trio P Q R) ≡ trio X Q R
  put_p X P Q R = λ i x. point x i
    where
      point : (x : ℕ) → put_stage p X (trio P Q R) x ≡ trio X Q R x
      point x = ground arith

  put_q : (X P Q R : Stage) → put_stage q X (trio P Q R) ≡ trio P X R
  put_q X P Q R = λ i x. point x i
    where
      point : (x : ℕ) → put_stage q X (trio P Q R) x ≡ trio P X R x
      point x = ground (arith, pq)

  put_r : (X P Q R : Stage) → put_stage r X (trio P Q R) ≡ trio P Q X
  put_r X P Q R = λ i x. point x i
    where
      point : (x : ℕ) → put_stage r X (trio P Q R) x ≡ trio P Q X x
      point x = ground (arith, rp, rq)

  all_resting : (x : ℕ) → resting ≡ trio resting resting resting x
  all_resting x = ground arith

  -- One of them makes some accesses.
  p_acts :
      (l : List Act) (P Q R : Stage) (t : Tally)
      → Scene P Q R t
      → let (P', t') = local l (P, t) in Scene P' Q R t'
  p_acts [] P Q R t g = g
  p_acts (a ∷ l) P Q R t g =
      p_acts l _ Q R _ (act_at p a P (trio P Q R) _ (opening 0) t (at_p P Q R) (put_p _ P Q R) g)

  q_acts :
      (l : List Act) (P Q R : Stage) (t : Tally)
      → Scene P Q R t
      → let (Q', t') = local l (Q, t) in Scene P Q' R t'
  q_acts [] P Q R t g = g
  q_acts (a ∷ l) P Q R t g =
      q_acts l P _ R _ (act_at q a Q (trio P Q R) _ (opening 0) t (at_q P Q R) (put_q _ P Q R) g)

  r_acts :
      (l : List Act) (P Q R : Stage) (t : Tally)
      → Scene P Q R t
      → let (R', t') = local l (R, t) in Scene P Q R' t'
  r_acts [] P Q R t g = g
  r_acts (a ∷ l) P Q R t g =
      r_acts l P Q _ _ (act_at r a R (trio P Q R) _ (opening 0) t (at_r P Q R) (put_r _ P Q R) g)

  rouse_p :
      (call : Call) (Q : Stage) (n : ℕ) (t : Tally)
      → Scene (parked call) Q (rousing (suc n)) t
      → Scene (spinning call call.spin) Q (rousing n) t
  rouse_p call Q n t g =
      let moved : put_stage r (rousing n)
            (put_stage p (spinning call call.spin) (trio (parked call) Q (rousing (suc n))))
          ≡ trio (spinning call call.spin) Q (rousing n) =
        ap (put_stage r (rousing n))
          (put_p (spinning call call.spin) (parked call) Q (rousing (suc n)))
        ∙ put_r (rousing n) (spinning call call.spin) Q (rousing (suc n)) in
      next g (
        rouses r p n call (at_r _ _ _) (at_p _ _ _)
          (ap (λ H. record { tally = t; stage = H }) (sym moved)))

  roused_r : (P Q : Stage) (t : Tally) → Scene P Q (rousing zero) t → Scene P Q resting t
  roused_r P Q t g = next g (
      roused_all r zero (at_r _ _ _) (inl refl)
        (ap (λ H. record { tally = t; stage = H }) (sym (put_r resting P Q (rousing zero)))))

  -- One more token, where there are some: nobody is woken.
  more_posts :
      (call : Call) (k : ℕ) (t : Tally)
      → 0 < t.count
      → t.count + k ≤ uint32_max
      → Scene resting (parked call) resting t
      → (t' : Tally) × (t'.count ≡ t.count + k) × Scene resting (parked call) resting t'
  more_posts call zero t pos small g = (t, omega arith, g)
  more_posts call (suc k) t pos small g =
      let some_there : (t.count == 0) ≡ false = ground arith in
      let t₁ : Tally = record t { count = t.count + 1; added = t.added + 1 } in
      let step : local post_one (resting, t) ≡ (resting, t₁) =
        local-post_one t (omega arith) ∙ rw some_there in
      let g₁ : Scene resting (parked call) resting t₁ =
        subst (λ x. Scene resting (parked call) x.0 x.1) step
          (r_acts post_one resting (parked call) resting t g) in
      let (t', e, g') = more_posts call k t₁ (omega arith) (omega arith) g₁ in
      (t', e ∙ omega arith, g')

  -- Two processes sleep in `wait`; two tokens are posted before the first of them, which is woken, has
  -- taken one.
  two_posts :
      (call : Call) (left : ℕ)
      → call.blocking ≡ true
      → call.spin ≡ suc left
      → Scene resting (parked call) resting (record { count = 1; added = 2; taken = 1 })
  two_posts call left b spins =
      let t₀ : Tally = record { count = 0; added = 0; taken = 0 } in
      let t₁ : Tally = record { count = 1; added = 1; taken = 0 } in
      let t₂ : Tally = record { count = 2; added = 2; taken = 0 } in
      let alone : opening 0 ≡ record { tally = t₀; stage = trio resting resting resting } =
        λ i. record { tally = t₀; stage = λ x. all_resting x i } in
      let g₀ : Scene resting resting resting t₀ = rw (← alone) here in
      let g₁ : Scene resting (parked call) resting t₀ =
        subst (λ x. Scene resting x.0 resting x.1) (local-park call t₀ b refl)
          (q_acts (park call) resting resting resting t₀ g₀) in
      let g₂ : Scene (parked call) (parked call) resting t₀ =
        subst (λ x. Scene x.0 (parked call) resting x.1) (local-park call t₀ b refl)
          (p_acts (park call) resting (parked call) resting t₀ g₁) in
      let g₃ : Scene (parked call) (parked call) (rousing 1) t₁ =
        subst (λ x. Scene (parked call) (parked call) x.0 x.1) (local-post_one t₀ (omega arith))
          (r_acts post_one (parked call) (parked call) resting t₀ g₂) in
      let g₄ : Scene (spinning call call.spin) (parked call) resting t₁ =
        roused_r _ _ _ (rouse_p call (parked call) zero t₁ g₃) in
      let g₅ : Scene (spinning call (suc left)) (parked call) resting t₂ =
        subst (λ n. Scene (spinning call n) (parked call) resting t₂) spins
          (subst (λ x. Scene (spinning call call.spin) (parked call) x.0 x.1)
            (local-post_one t₁ (omega arith))
            (r_acts post_one (spinning call call.spin) (parked call) resting t₁ g₄)) in
      subst (λ x. Scene x.0 (parked call) resting x.1) (local-take call left t₂ (omega arith))
        (p_acts (onward ∷ onward ∷ []) _ (parked call) resting t₂ g₅)

  -- For any two processes that wait in blocking calls with a spin of 1 or more and a third one that
  -- posts, there is an order of accesses of a semaphore that began without tokens, after which one
  -- of the two sleeps in its call, everybody else is outside all calls, so that nobody is about to
  -- wake it, and there are tokens: one, or any larger number that fits 32 bits.
  pub wakeup_lost :
      (call : Call) (left k : ℕ)
      → call.blocking ≡ true
      → call.spin ≡ suc left
      → k < uint32_max
      → (t : Crowd) × Goes (opening 0) t
        × (t.stage q ≡ parked call)
        × ((x : ℕ) → x ≢ q → t.stage x ≡ resting)
        × (t.tally.count ≡ 1 + k)
  wakeup_lost call left k b spins small =
      let (t', e, g) =
        more_posts call k (record { count = 1; added = 2; taken = 1 }) (omega arith) (omega arith)
          (two_posts call left b spins) in
      (
        record { tally = t'; stage = trio resting (parked call) resting },
        g,
        at_q _ _ _,
        (λ x ne. outside x ne),
        e,
      )
    where
      outside : (x : ℕ) → x ≢ q → trio resting (parked call) resting x ≡ resting
      outside x ne = ground arith
