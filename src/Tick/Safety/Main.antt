-- ===== src/Tick/Safety/Main.antt =====
-- What a tick claims, from the settings to the last call.
use hermes_agent_runtime.Base.{ℕ, ◌≡◌, refl, String, some, List, [], ◌∷◌}
use hermes_agent_runtime.Base.Dict.{Dict}
use hermes_agent_runtime.Base.Result.{ok, err}
use hermes_agent_runtime.Runtime.Exceptions.{Call}
use hermes_agent_runtime.Runtime.Machine.{Dispatch}
use hermes_agent_runtime.Runtime.Action.{pure, lift, ◌>>=◌, Gives, >>=-Gives}
use hermes_agent_runtime.Runtime.Execute.{AgentRuntime, agent_runtime}
use hermes_agent_runtime.Kanban.Adapter.{Adapter, checked_adapter}
use hermes_agent_runtime.Supabase.Http.{from_environment}
use hermes_agent_runtime.Supabase.Store.{store_of}
use hermes_agent_runtime.Env.Process.{missing_required, export_into_environ}
use hermes_agent_runtime.Clients.Json.{Json}
use hermes_agent_runtime.Clients.Linear.{Linear, linear}
use hermes_agent_runtime.Tick.Nodes.{issues_in}
use hermes_agent_runtime.Tick.Issues.{
  todo_issues, guarded_read_issues, resolve_bound, move_issue_status, linear_status_states,
}
use hermes_agent_runtime.Tick.Main.{
  Settings, Outside, Chain, kanban_adapter, with_client, with_environ, with_answer, with_issues,
  with_store, with_runtime, build, run_built, proceed, main,
}
use hermes_agent_runtime.Tick.Safety.{IsCalm, idle-IsCalm, run_chain-IsCalm}

module _ {W : Type 0} (outside : Outside W) (settings : Settings) where
  open outside use {files, web, urlopen, board, source}

  Reads : ℕ → Chain W → Type 0
  Reads bound chain =
      (client : Linear) × (chain.read_issues
        ≡ guarded_read_issues web client board bound settings.team_key)

  with_answer-Reads :
      (loaded environ : Dict String) (client : Linear) (found : Json) (w : W) {bound : ℕ}
      → bound ≡ resolve_bound environ
      → Gives (Reads bound) (with_answer outside settings loaded environ client found w)
  unfolding Reads
  with_answer-Reads loaded environ client found w {bound} h =
      >>=-Gives (Reads bound) (lift (issues_in found))
        (with_issues outside settings loaded environ client) w
        λ issues _.
          >>=-Gives (Reads bound) (lift (from_environment environ))
            (with_store outside settings loaded environ client issues) w
            λ store _.
              >>=-Gives (Reads bound)
                (lift (
                  agent_runtime (store_of urlopen store) settings.claim_ttl_seconds
                    settings.heartbeat_seconds))
                (with_runtime outside settings loaded environ client issues) w
                λ runtime _.
                  checked (checked_adapter (kanban_adapter outside settings)) issues runtime
    where
      checked :
          (r : Call (Adapter W)) (issues : Dict Json) (runtime : AgentRuntime W)
          → Gives (Reads bound) (
              (lift r >>= λ adapter. pure (record {
                runtime = runtime;
                adapter = adapter;
                move_status =
                    some (move_issue_status web client (linear_status_states loaded) issues);
                read_issues =
                    guarded_read_issues web client board (resolve_bound environ) settings.team_key;
              }))
                w)
      checked (ok adapter) issues runtime = (client, rw h refl)
      checked (err e) issues runtime = tt

  build-Reads :
      (environ : Dict String) (w : W) {environ' : Dict String}
      → export_into_environ files environ ≡ ok environ'
      → Gives (Reads (resolve_bound environ')) (build outside settings environ w)
  unfolding build Reads
  build-Reads environ w {environ'} h =
      let P = Reads (resolve_bound environ') in
      >>=-Gives P (lift (export_into_environ files environ)) (with_environ outside settings environ)
        w
        λ given e.
          let same : given ≡ environ' = cc in
          >>=-Gives P (lift (linear files)) (with_client outside settings environ given) _
            λ client _.
              >>=-Gives P (todo_issues web client settings.team_key)
                (with_answer outside settings environ given client) _
                λ found _. with_answer-Reads environ given client found _ (rw same refl)

  -- The bound of a tick: that of the environment once the file is loaded. Where the file is not
  -- read, nothing may be dispatched.
  pub tick_bound : Dict String → ℕ
  tick_bound environ = elim (export_into_environ files environ) [
    | ok environ' ↦ resolve_bound environ'
    | err _ ↦ 0
  ]

  build-Reads_bound :
      (environ : Dict String) (w : W)
      → Gives (Reads (tick_bound environ)) (build outside settings environ w)
  unfolding tick_bound build
  build-Reads_bound environ w = go (export_into_environ files environ) refl
    where
      go :
          (r : Call (Dict String))
          → export_into_environ files environ ≡ r
          → Gives
              (Reads (elim r [ ok environ' ↦ resolve_bound environ' | err _ ↦ 0 ]))
              (build outside settings environ w)
      go (ok environ') e = build-Reads environ w e
      go (err x) e =
          >>=-Gives (Reads 0) (lift (export_into_environ files environ))
            (with_environ outside settings environ) w (λ given e'. cc)

  run_built-IsCalm :
      (out : Dispatch W) (fuel bound : ℕ) (wakeups : List ℕ) (o : Call (Chain W) × W)
      → Gives (Reads bound) o
      → IsCalm bound (run_built outside settings out fuel wakeups o.0 o.1).1
  unfolding Reads
  run_built-IsCalm out fuel bound wakeups (ok chain, w) (client, read) =
      run_chain-IsCalm outside settings out fuel bound client chain wakeups w read
  run_built-IsCalm out fuel bound wakeups (err e, w) h =
      idle-IsCalm outside settings bound wakeups w

  proceed-IsCalm :
      (out : Dispatch W) (fuel : ℕ) (wakeups : List ℕ) (environ : Dict String)
      (missing : Call (List String)) (w : W)
      → IsCalm (tick_bound environ) (proceed outside settings out fuel wakeups environ missing w).1
  proceed-IsCalm out fuel wakeups environ (err e) w =
      idle-IsCalm outside settings (tick_bound environ) wakeups w
  proceed-IsCalm out fuel wakeups environ (ok (_ ∷ _)) w =
      idle-IsCalm outside settings (tick_bound environ) wakeups w
  proceed-IsCalm out fuel wakeups environ (ok []) w =
      run_built-IsCalm out fuel (tick_bound environ) wakeups (build outside settings environ w)
        (build-Reads_bound environ w)

  -- However a tick ends, it has claimed at most as many runs as the bound of its environment says,
  -- each of them automatic, outside production and at a risk that is neither high nor critical, and
  -- the heartbeat thread is stopped: for all answers of Linear, Supabase and the board, and all
  -- settings and timings of the heartbeats.
  pub main-IsCalm :
      (out : Dispatch W) (fuel : ℕ) (wakeups : List ℕ) (environ : Dict String) (w : W)
      → IsCalm (tick_bound environ) (main outside settings out fuel wakeups environ w).1
  unfolding main
  main-IsCalm out fuel wakeups environ w =
      proceed-IsCalm out fuel wakeups environ (missing_required files environ) w
