-- ===== src/Probes/Steps.antt =====
-- The steps of an action: what it does once an earlier part has returned or raised.
use beyond_kvtransfer.Base.{
  ℕ, ◌+◌, ◌∙◌, ◌≡◌, refl, ap, Bool, true, false, Option, none, some, if◌then◌else◌,
}
use beyond_kvtransfer.Py.{Obj}
use beyond_kvtransfer.Probes.{
  Process, Env, Action, Original, ◌>>=◌, when_enabled, now, timed, followed,
}

module _ {ℓ κ} {A : Type ℓ} {B : Type κ} where
  abbrev continued : (A → Action B) → Process × Option A → Process × Option B
  continued f x = elim x.1 as (λ o. Process × Option B) [ none ↦ (x.0, none) | some a ↦ f a x.0 ]

  pub bind-returns :
      (m : Action A) (f : A → Action B) (p q : Process) (a : A)
      → m p ≡ (q, some a)
      → (m >>= f) p ≡ f a q
  bind-returns m f p q a e = ap (continued f) e

  pub bind-raises :
      (m : Action A) (f : A → Action B) (p q : Process) → m p ≡ (q, none) → (m >>= f) p ≡ (q, none)
  bind-raises m f p q e = ap (continued f) e

module _ (original : Original) (traced : Action Obj) (p : Process) where
  pub when_enabled-on : p.em.enabled ≡ true → when_enabled original traced p ≡ traced p
  unfolding when_enabled
  when_enabled-on on = ap (λ (b : Bool). if b then traced p else original p) on

  pub when_enabled-off : p.em.enabled ≡ false → when_enabled original traced p ≡ original p
  unfolding when_enabled
  when_enabled-off off = ap (λ (b : Bool). if b then traced p else original p) off

-- one more reading was taken
abbrev pub next : Process → Process
next p = record p { ticks = p.ticks + 1 }

module _ (env : Env) (original : Original) (p q : Process) where
  module _ (after : ℕ → ℕ → Obj → Action Obj) (on : p.em.enabled ≡ true) where
    timed_body : Obj → Action Obj
    timed_body v = now env >>= λ t. after (env.clock p.ticks) t v

    traced : Action Obj
    traced = now env >>= λ t_start. original >>= λ v. now env >>= λ t_end. after t_start t_end v

    timed_start : timed env after original p ≡ (original >>= timed_body) (next p)
    timed_start = unfold timed now timed_body traced in when_enabled-on original traced p on

    pub timed-returns :
        (v : Obj)
        → original (next p) ≡ (q, some v)
        → timed env after original p ≡ after (env.clock p.ticks) (env.clock q.ticks) v (next q)
    timed-returns v called =
        timed_start
        ∙ bind-returns original timed_body (next p) q v called
        ∙ unfold timed_body now in refl

    pub timed-raises : original (next p) ≡ (q, none) → timed env after original p ≡ (q, none)
    timed-raises called = timed_start ∙ bind-raises original timed_body (next p) q called

  module _ (after : ℕ → Obj → Action Obj) (on : p.em.enabled ≡ true) where
    followed_body : Obj → Action Obj
    followed_body v = now env >>= λ t. after t v

    observed : Action Obj
    observed = original >>= λ v. now env >>= λ t. after t v

    followed_start : followed env after original p ≡ (original >>= followed_body) p
    followed_start =
        unfold followed followed_body observed in when_enabled-on original observed p on

    pub followed-returns :
        (v : Obj)
        → original p ≡ (q, some v)
        → followed env after original p ≡ after (env.clock q.ticks) v (next q)
    followed-returns v called =
        followed_start
        ∙ bind-returns original followed_body p q v called
        ∙ unfold followed_body now in refl

    pub followed-raises : original p ≡ (q, none) → followed env after original p ≡ (q, none)
    followed-raises called = followed_start ∙ bind-raises original followed_body p q called
