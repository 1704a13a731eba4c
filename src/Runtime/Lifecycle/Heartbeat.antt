-- ===== src/Runtime/Lifecycle/Heartbeat.antt =====
-- The heartbeat thread and the protocol: it adds heartbeats while it runs, and nothing once it is
-- stopped.
use hermes_agent_runtime.Base.{
  ℕ, zero, suc, ◌≡◌, refl, ap, ◌∙◌, Bool, true, false, List, [], ◌∷◌, if◌then◌else◌,
}
use hermes_agent_runtime.Base.Result.{ok, err}
use hermes_agent_runtime.Runtime.Exceptions.{Call}
use hermes_agent_runtime.Runtime.Context.{ExecutionContext}
use hermes_agent_runtime.Runtime.Machine.{
  Action, Store, Dispatch, returns, step, Request, Machine, heard, take_turn, beat, beats, tick,
  perform, run_dispatch, join,
}
use hermes_agent_runtime.Runtime.Triple.{Post}
use hermes_agent_runtime.Runtime.Protocol.{Phase, IsOpen, Step, beats as a_beat, Trace, extend}

if-false {ℓ} : {A : Type ℓ} (b : Bool) (x y : A) → b ≡ false → (if b then x else y) ≡ y
if-false true x y e = cc
if-false false x y e = refl

-- An outcome of either kind
pub Post-both :
    {W A : Type 0} (P : Machine W → Type 0) (r : Call A) (m : Machine W)
    → P m
    → Post (λ _. P) (λ _. P) (r, m)
Post-both P (ok a) m h = h
Post-both P (err e) m h = h

module _ {W : Type 0} (store : Store W) (context : ExecutionContext) (ttl : ℕ)
    (base : List Request) where
  abbrev pub Follows : Phase → Machine W → Type 0
  Follows p m = Trace context ttl base m.log p

  -- The same, with the thread stopped
  abbrev pub Quiet : Phase → Machine W → Type 0
  Quiet p m = Follows p m × (m.alive ≡ false)

  heard-log : (r : Call Bool) (m : Machine W) → (heard r m).log ≡ m.log
  heard-log (ok true) m = refl
  heard-log (ok false) m = refl
  heard-log (err e) m = refl

  branch-Follows :
      {p : Phase} (b : Bool) (m n : Machine W)
      → Follows p m
      → Follows p n
      → Follows p (if b then m else n)
  branch-Follows true m n h k = h
  branch-Follows false m n h k = k

  beat-Follows :
      {p : Phase} → IsOpen p → (m : Machine W) → Follows p m → Follows p (beat store context ttl m)
  unfolding beat
  beat-Follows o m t = branch-Follows m.alive _ m (rw heard-log (extend t (a_beat o))) t

  beats-Follows :
      {p : Phase}
      → IsOpen p
      → (n : ℕ) (m : Machine W) → Follows p m
      → Follows p (beats store context ttl n m)
  unfolding beats
  beats-Follows o zero m t = t
  beats-Follows o (suc n) m t = beats-Follows o n _ (beat-Follows o m t)

  turn-Follows :
      {p : Phase}
      → IsOpen p
      → (turns : List ℕ) (m : Machine W) → Follows p m
      → Follows p (take_turn store context ttl turns m)
  turn-Follows o [] m t = t
  turn-Follows o (n ∷ later) m t = beats-Follows o n _ t

  tick-Follows :
      {p : Phase} → IsOpen p → (m : Machine W) → Follows p m → Follows p (tick store context ttl m)
  unfolding tick
  tick-Follows o m t = turn-Follows o m.wakeups m t

  -- A thread that does not run does nothing.
  beat_quiet : (m : Machine W) → m.alive ≡ false → beat store context ttl m ≡ m
  unfolding beat
  beat_quiet m q = if-false m.alive _ m q

  pub beats_quiet : (n : ℕ) (m : Machine W) → m.alive ≡ false → beats store context ttl n m ≡ m
  unfolding beats
  beats_quiet zero m q = refl
  beats_quiet (suc n) m q = ap (beats store context ttl n) (beat_quiet m q) ∙ beats_quiet n m q

  turn-Quiet :
      {p : Phase} (turns : List ℕ) (m : Machine W)
      → Quiet p m
      → Quiet p (take_turn store context ttl turns m)
  turn-Quiet [] m h = h
  turn-Quiet (n ∷ later) m h = rw (beats_quiet n (record m { wakeups = later }) h.1) h

  tick-Quiet : {p : Phase} (m : Machine W) → Quiet p m → Quiet p (tick store context ttl m)
  unfolding tick
  tick-Quiet m h = turn-Quiet m.wakeups m h

  pub perform-Follows :
      {A : Type 0} {p q : Phase} (request : Request) (action : Action W A) (m : Machine W)
      → IsOpen p
      → Step context ttl p request q
      → Follows p m
      → Post (λ _. Follows q) (λ _. Follows q) (perform store context ttl request action m)
  unfolding perform
  perform-Follows {q = q} request action m o s t =
      Post-both (Follows q) _ _ (extend (tick-Follows o m t) s)

  pub perform-Quiet :
      {A : Type 0} {p q : Phase} (request : Request) (action : Action W A) (m : Machine W)
      → Step context ttl p request q
      → Quiet p m
      → Post (λ _. Quiet q) (λ _. Quiet q) (perform store context ttl request action m)
  unfolding perform
  perform-Quiet {q = q} request action m s h =
      let k = tick-Quiet m h in Post-both (Quiet q) _ _ (extend k.0 s, k.1)

  pub run_dispatch-Follows :
      {p : Phase}
      → IsOpen p
      → (work : Dispatch W) (m : Machine W) → Follows p m
      → Post (λ _. Follows p) (λ _. Follows p) (run_dispatch store context ttl work m)
  unfolding run_dispatch
  run_dispatch-Follows {p} o (returns r) m t = Post-both (Follows p) r m t
  run_dispatch-Follows o (step act next) m t =
      run_dispatch-Follows o (next _) _ (tick-Follows o m t)

  pub join-Quiet :
      {p : Phase} → IsOpen p → (m : Machine W) → Follows p m → Quiet p (join store context ttl m)
  unfolding join
  join-Quiet o m t = (tick-Follows o m t, refl)

  pub join-Quiet_again :
      {p : Phase} (m : Machine W) → Quiet p m → Quiet p (join store context ttl m)
  unfolding join
  join-Quiet_again m h = ((tick-Quiet m h).0, refl)

  -- What a call raises, its action has raised in some world.
  pub perform-Quiet_raised :
      {A : Type 0} {p q : Phase} (request : Request) (action : Action W A) (m : Machine W)
      → Step context ttl p request q
      → Quiet p m
      → Post
          (λ _. Quiet q)
          (λ e m'. Quiet q m' × ((w : W) × ((action w).0 ≡ err e)))
          (perform store context ttl request action m)
  unfolding perform
  perform-Quiet_raised {A} {p} {q} request action m s h =
      let k = tick-Quiet m h in
      go _ (action (tick store context ttl m).world).0 refl _ (extend k.0 s, k.1)
    where
      go :
          (w : W) (r : Call A)
          → (action w).0 ≡ r
          → (m' : Machine W) → Quiet q m'
          → Post (λ _. Quiet q) (λ e m''. Quiet q m'' × ((v : W) × ((action v).0 ≡ err e))) (r, m')
      go w (ok a) e m' x = x
      go w (err c) e m' x = (x, (w, e))
