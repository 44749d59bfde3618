-- ===== src/Server/Lifetime.antt =====
-- `StartServer`, `ServerLifetime` and `StopHandler` of src/libraries/rest/server/rest_server.cpp.
-- What the network does to the listening socket is a parameter: the failure of each step, if it
-- fails.
pub mod Destroy
pub mod Owners
use just_queue_it.Base.{
  ℕ, zero, suc, ◌≤◌, Bytes, Bool, true, false, ◌≡◌, ◌↔◌, refl, ap, ◌∙◌, Option, none, some, List,
  [], ◌∷◌, length, All, ltb, if◌then◌else◌, arith,
}
use just_queue_it.Base.Exec.{Outcome, returned, thrown}
use just_queue_it.Server.Session.{Failure, log_error}

pub record ServerConfig : Type 0 where
  pub address : Bytes
  pub port : ℕ
  pub threads : ℕ

-- The steps of `DoListen` before it stores `true` in `started`.
pub record Setup : Type 0 where
  pub open_error : Option Failure
  pub set_option_error : Option Failure
  pub bind_error : Option Failure
  pub listen_error : Option Failure

abbrev first_error : Option Failure → Option Failure → Option Failure
first_error none next = next
first_error (some e) next = some e

-- The exception that ends `DoListen`; `none` if it gets to its loop, `started` being true then.
unfoldable pub do_listen : Setup → Option Failure
do_listen setup =
    first_error setup.open_error
      (first_error setup.set_option_error (first_error setup.bind_error setup.listen_error))

-- `ioc.stopped()`, and for each thread whether it is joinable.
pub record ServerLifetime : Type 0 where
  pub stopped : Bool
  pub threads : List Bool

abbrev pub replicate : ℕ → List Bool
replicate zero = []
replicate (suc n) = true ∷ replicate n

-- `std::max(size_t{1}, config.threads)`
abbrev pub max_threads : ℕ → ℕ
max_threads n = if ltb 1 n then n else 1

-- `blocked` is a call that waits for `started` for ever; what has been logged is with it.
pub data Start : Type 0 where
  started : ServerLifetime → Start
  blocked : Bytes → Start
  bad_address : Bytes → Start

listening : ServerConfig → Option Failure → Start
listening config none =
    started (record { stopped = false; threads = replicate (max_threads config.threads) })
listening config (some e) = blocked (log_error (some e))

launch : {Address : Type 0} → ServerConfig → Setup → Outcome Address → Start
unfolding listening
launch config setup (thrown what) = bad_address what
launch config setup (returned address) = listening config (do_listen setup)

unfoldable pub start_server :
    {Address : Type 0} → (Bytes → Outcome Address) → ServerConfig → Setup → Start
unfolding launch
start_server make_address config setup = launch config setup (make_address config.address)

-- `if (t.joinable()) t.join();` for each thread.
abbrev pub join_all : List Bool → List Bool
join_all [] = []
join_all (joinable ∷ ts) = (if joinable then false else joinable) ∷ join_all ts

pub wait : ServerLifetime → ServerLifetime
wait l = record l { threads = join_all l.threads }

-- `StopHandler::Stop`, which its destructor calls too.
unfoldable pub stop : ServerLifetime → ServerLifetime
unfolding wait
stop l = if l.stopped then l else wait (record l { stopped = true })

All-join_all : (ts : List Bool) → All (λ j. j ≡ false) (join_all ts)
All-join_all [] = tt
All-join_all (true ∷ ts) = (refl, All-join_all ts)
All-join_all (false ∷ ts) = (refl, All-join_all ts)

length-join_all : (ts : List Bool) → length (join_all ts) ≡ length ts
length-join_all [] = refl
length-join_all (t ∷ ts) = ap suc (length-join_all ts)

length-replicate : (n : ℕ) → length (replicate n) ≡ n
length-replicate zero = refl
length-replicate (suc n) = ap suc (length-replicate n)

-- A second `Stop`, such as that of the destructor, does nothing.
stop_idempotent : (l : ServerLifetime) → stop (stop l) ≡ stop l
unfolding stop
stop_idempotent l = ground arith

launch-started :
    {Address : Type 0} (config : ServerConfig) (setup : Setup) (o : Outcome Address)
    (l : ServerLifetime)
    → launch config setup o ≡ started l
    → (do_listen setup ≡ none)
      × (l ≡ record { stopped = false; threads = replicate (max_threads config.threads) })
unfolding launch
launch-started config setup (thrown what) l e = absurd (ground arith)
launch-started config setup (returned address) l e = ground arith

threads_bounds : (n : ℕ) → (1 ≤ max_threads n) × (n ≤ max_threads n)
threads_bounds n = ground arith

module _ {Address : Type 0} (make_address : Bytes → Outcome Address) where
  -- What `Stop` does to a lifetime that `StartServer` has returned: the context is stopped, every
  -- thread has been joined, and there were at least one and at least as many as configured.
  stop-started :
      (config : ServerConfig) (setup : Setup) (l : ServerLifetime)
      → start_server make_address config setup ≡ started l
      → ((stop l).stopped ≡ true)
        × All (λ j. j ≡ false) (stop l).threads
        × (1 ≤ length (stop l).threads)
        × (config.threads ≤ length (stop l).threads)
        × (stop (stop l) ≡ stop l)
  unfolding start_server stop
  stop-started config setup l e =
      let (_, same) = launch-started config setup (make_address config.address) l e in
      let n = max_threads config.threads in
      let count : length (join_all (replicate n)) ≡ n =
        length-join_all (replicate n) ∙ length-replicate n in
      rw same (
        refl,
        All-join_all (replicate n),
        omega (arith, threads_bounds config.threads, count),
        omega (arith, threads_bounds config.threads, count),
        stop_idempotent (record { stopped = false; threads = replicate n }),
      )

  -- If the address is one, `StartServer` returns exactly if no step of the listening fails; then
  -- `Stop` stops the context and joins every thread, of which there are at least one and at least
  -- as many as configured, and a second `Stop`, such as that of the destructor, changes nothing.
  pub stop-start_server :
      (config : ServerConfig) (setup : Setup) (address : Address)
      → make_address config.address ≡ returned address
      → (do_listen setup ≡ none) ↔ (
          (l : ServerLifetime) × (start_server make_address config setup ≡ started l)
          × ((stop l).stopped ≡ true)
          × All (λ j. j ≡ false) (stop l).threads
          × (1 ≤ length (stop l).threads)
          × (config.threads ≤ length (stop l).threads)
          × (stop (stop l) ≡ stop l))
  unfolding start_server
  stop-start_server config setup address made = (
    λ clean.
        let l : ServerLifetime = record {
          stopped = false;
          threads = replicate (max_threads config.threads);
        } in
        let starts : start_server make_address config setup ≡ started l =
          ap (launch config setup) made ∙ ap (listening config) clean in
        let (stopped, joined, some_thread, all_threads, again) =
          stop-started config setup l starts in
        (l, starts, stopped, joined, some_thread, all_threads, again),
    λ r. (launch-started config setup (make_address config.address) r.0 r.1).0,
  )
