-- ===== src/Server/Lifetime/Destroy.antt =====
-- The end of a server: `~StopHandler` and `~ServerLifetime` of
-- src/libraries/rest/server/rest_server.cpp, after whatever the server has taken up.
use just_queue_it.Base.{
  ℕ, zero, suc, ◌≤◌, Bytes, Bool, true, false, not, ◌||◌, ◌≡◌, refl, ◌∙◌, List, [], ◌∷◌, All,
  if◌then◌else◌, arith,
}
use just_queue_it.Base.Exec.{Outcome}
use just_queue_it.Server.Lifetime.{
  ServerConfig, Setup, ServerLifetime, started, start_server, stop, wait, join_all, All-join_all,
  replicate, max_threads, threads_bounds, launch-started,
}
use just_queue_it.Server.Listening.{Phase, waiting, writing, over, Connection, Serving}

abbrev is_open : Phase → Bool
is_open (over e) = false
is_open waiting = true
is_open (writing res write_error shutdown_error) = true

abbrev any_open : List Connection → Bool
any_open [] = false
any_open (c ∷ cs) = is_open c.phase || any_open cs

-- `DoListen` or a session has not ended.
abbrev pub has_work : {S : Type 0} → Serving S → Bool
has_work v = v.listening || any_open v.connections

-- What Boost.Asio documents of `io_context::stopped`: nobody having called `stop`, it is true once
-- the context has run out of work, and `run` has returned in every thread then.
pub record StopsWithoutWork {S : Type 0} (ioc_stopped : Serving S → Bool) : Type 0 where
  pub without_work : (v : Serving S) → v.stopped ≡ false → ioc_stopped v ≡ not (has_work v)

abbrev pub lifetime_after :
    {S : Type 0} → (Serving S → Bool) → Serving S → ServerLifetime → ServerLifetime
lifetime_after ioc_stopped v l = record l { stopped = ioc_stopped v }

-- The destructor of a thread that is joinable calls `std::terminate`.
pub data Dropped : Type 0 where
  freed terminated : Dropped

-- The destructors of the threads.
abbrev pub drop_threads : List Bool → Dropped
drop_threads [] = freed
drop_threads (joinable ∷ ts) = if joinable then terminated else drop_threads ts

-- `~StopHandler`, which is the last owner: `Stop`, and then `~ServerLifetime`.
pub destroy : ServerLifetime → Dropped
unfolding stop
destroy l = drop_threads (stop l).threads

pub drop_threads-freed : (ts : List Bool) → All (λ j. j ≡ false) ts → drop_threads ts ≡ freed
drop_threads-freed [] h = refl
drop_threads-freed (t ∷ ts) h = rw h.0 (drop_threads-freed ts h.1)

drop_threads-replicate : (n : ℕ) → 1 ≤ n → drop_threads (replicate n) ≡ terminated
drop_threads-replicate zero h = absurd (omega (arith, h))
drop_threads-replicate (suc n) h = refl

-- At the lifetime that `StartServer` gives, the context having stopped by itself or not.
destroy-replicate :
    (n : ℕ) (stopped : Bool)
    → 1 ≤ n
    → destroy (record { stopped = stopped; threads = replicate n })
      ≡ (if stopped then terminated else freed)
unfolding destroy stop wait
destroy-replicate n true h = drop_threads-replicate n h
destroy-replicate n false h =
    drop_threads-freed (join_all (replicate n)) (All-join_all (replicate n))

drop_threads-join_all : (ts : List Bool) → drop_threads (join_all ts) ≡ freed
drop_threads-join_all ts = drop_threads-freed (join_all ts) (All-join_all ts)

destroy-joined :
    (stopped : Bool) (ts : List Bool)
    → destroy (record { stopped = stopped; threads = join_all ts }) ≡ freed
unfolding destroy stop wait
destroy-joined true ts = drop_threads-join_all ts
destroy-joined false ts = drop_threads-join_all (join_all ts)

destroy-wait : (l : ServerLifetime) → destroy (wait l) ≡ freed
unfolding wait
destroy-wait l = destroy-joined l.stopped l.threads

-- A context that nobody has stopped is stopped once it has no work.
ends_without_work :
    (b : Bool) → (if not b then terminated else freed) ≡ (if b then freed else terminated)
ends_without_work true = refl
ends_without_work false = refl

module _ {Address S : Type 0} (make_address : Bytes → Outcome Address) where
  -- The lifetime that `StartServer` has returned, destroyed after the server has taken up any
  -- events but `Stop`, where the context stops once it has no work: if the listening or a session
  -- has not ended, every thread is joined first; if all have ended, `Stop` finds the context stopped
  -- and joins no thread, and the program terminates. A `Wait` before the destruction joins every
  -- thread in either case.
  pub destroy-lifetime_after :
      (config : ServerConfig) (setup : Setup) (l : ServerLifetime) (v : Serving S)
      (ioc_stopped : Serving S → Bool)
      → StopsWithoutWork ioc_stopped
      → start_server make_address config setup ≡ started l
      → v.stopped ≡ false
      → (destroy (lifetime_after ioc_stopped v l) ≡ (if has_work v then freed else terminated))
        × (destroy (wait (lifetime_after ioc_stopped v l)) ≡ freed)
  unfolding start_server
  destroy-lifetime_after config setup l v ioc_stopped stops starts running =
      let (_, same) = launch-started config setup (make_address config.address) l starts in
      let n = max_threads config.threads in
      let dropped =
        destroy-replicate n (not (has_work v)) (threads_bounds config.threads).0
        ∙ ends_without_work (has_work v) in
      (
        rw (stops.without_work v running, same) dropped,
        destroy-wait (lifetime_after ioc_stopped v l),
      )
