-- ===== src/Server/Lifetime/Owners.antt =====
-- `StopHandler` of src/libraries/rest/server/rest_server.hpp and rest_server.cpp: a shared pointer to
-- the lifetime. The class declares a destructor and no other operation on whole handlers, so that a
-- handler can be copied, and a move is a copy.
use mathlib.Core.List.{Memᴰ}
use just_queue_it.Base.{
  ℕ, zero, suc, Bytes, Bool, true, false, ◌≡◌, ◌≢◌, refl, sym, ap, List, [], ◌∷◌, All, ◌⊎◌, inl,
  inr, Bool-cases,
}
use just_queue_it.Base.Exec.{Outcome}
use just_queue_it.Server.Lifetime.{
  ServerConfig, Setup, ServerLifetime, started, start_server, stop, wait, All-join_all,
  launch-started,
}
use just_queue_it.Server.Lifetime.Destroy.{Dropped, freed, drop_threads, drop_threads-freed}

-- The lifetime that all handlers share, the number of handlers but the last, and what the
-- destruction of the lifetime has come to.
pub data Owners : Type 0 where
  owned : ℕ → ServerLifetime → Owners
  released : Dropped → Owners

-- What happens to the handlers: one is copied, `Stop` or `Wait` is called on one, one is destroyed;
-- or the context runs out of work.
pub data Use : Type 0 where
  copy call_stop call_wait destruction out_of_work : Use

-- `~StopHandler`: `Stop`, and then the reference is given up.
destroyed : ℕ → ServerLifetime → Owners
destroyed zero l = released (drop_threads l.threads)
destroyed (suc n) l = owned n l

pub use_handler : Use → Owners → Owners
unfolding destroyed stop wait
use_handler e (released d) = released d
use_handler copy (owned n l) = owned (suc n) l
use_handler call_stop (owned n l) = owned n (stop l)
use_handler call_wait (owned n l) = owned n (wait l)
use_handler destruction (owned n l) = destroyed n (stop l)
use_handler out_of_work (owned n l) = owned n (record l { stopped = true })

unfoldable pub use_handlers : List Use → Owners → Owners
unfolding use_handler
use_handlers [] o = o
use_handlers (e ∷ es) o = use_handlers es (use_handler e o)

abbrev pub IsJoined : ServerLifetime → Type 0
IsJoined l = All (λ j. j ≡ false) l.threads

-- A lifetime that has been stopped has no thread to join, and one that has been destroyed had none.
abbrev pub IsTidy : Owners → Type 0
IsTidy (owned n l) = l.stopped ≡ true → IsJoined l
IsTidy (released d) = d ≡ freed

-- The context is stopped, or it has gone.
abbrev pub has_ended : Owners → Bool
has_ended (owned n l) = l.stopped
has_ended (released d) = true

stop-IsJoined : (l : ServerLifetime) → (l.stopped ≡ true → IsJoined l) → IsJoined (stop l)
unfolding stop wait
stop-IsJoined l tidy = elim (Bool-cases l.stopped) [
  | inl e ↦ rw e (tidy e)
  | inr e ↦ rw e (All-join_all l.threads)
]

stop_stops : (l : ServerLifetime) → (stop l).stopped ≡ true
unfolding stop wait
stop_stops l = elim (Bool-cases l.stopped) [ inl e ↦ rw e refl | inr e ↦ rw e ]

destroyed-IsTidy : (n : ℕ) (l : ServerLifetime) → IsJoined l → IsTidy (destroyed n l)
unfolding destroyed
destroyed-IsTidy zero l joined = drop_threads-freed l.threads joined
destroyed-IsTidy (suc n) l joined = λ e. joined

use_handler-IsTidy : (e : Use) (o : Owners) → e ≢ out_of_work → IsTidy o → IsTidy (use_handler e o)
unfolding use_handler wait
use_handler-IsTidy e (released d) ne h = h
use_handler-IsTidy copy (owned n l) ne h = h
use_handler-IsTidy call_stop (owned n l) ne h = λ e. stop-IsJoined l h
use_handler-IsTidy call_wait (owned n l) ne h = λ e. All-join_all l.threads
use_handler-IsTidy destruction (owned n l) ne h = destroyed-IsTidy n (stop l) (stop-IsJoined l h)
use_handler-IsTidy out_of_work (owned n l) ne h = absurd (ne refl)

destroyed_ends : (n : ℕ) (l : ServerLifetime) → l.stopped ≡ true → has_ended (destroyed n l) ≡ true
unfolding destroyed
destroyed_ends zero l h = refl
destroyed_ends (suc n) l h = h

stays_ended : (e : Use) (o : Owners) → has_ended o ≡ true → has_ended (use_handler e o) ≡ true
unfolding use_handler wait
stays_ended e (released d) h = h
stays_ended copy (owned n l) h = h
stays_ended call_stop (owned n l) h = stop_stops l
stays_ended call_wait (owned n l) h = h
stays_ended destruction (owned n l) h = destroyed_ends n (stop l) (stop_stops l)
stays_ended out_of_work (owned n l) h = refl

all_stay_ended :
    (es : List Use) (o : Owners) → has_ended o ≡ true → has_ended (use_handlers es o) ≡ true
unfolding use_handlers
all_stay_ended [] o h = h
all_stay_ended (e ∷ es) o h = all_stay_ended es (use_handler e o) (stays_ended e o h)

-- A use that stops the server.
abbrev pub Stops : Use → Type 0
Stops e = (e ≡ call_stop) ⊎ (e ≡ destruction)

ends_here : (e : Use) (o : Owners) → Stops e → has_ended (use_handler e o) ≡ true
unfolding use_handler
ends_here e (released d) h = refl
ends_here e (owned n l) (inl h) = rw h (stop_stops l)
ends_here e (owned n l) (inr h) = rw h (destroyed_ends n (stop l) (stop_stops l))

use_handlers-IsTidy :
    (es : List Use) (o : Owners) → ¬ Memᴰ out_of_work es → IsTidy o → IsTidy (use_handlers es o)
unfolding use_handlers
use_handlers-IsTidy [] o none_out h = h
use_handlers-IsTidy (e ∷ es) o none_out h =
    use_handlers-IsTidy es (use_handler e o) (λ m. none_out (Memᴰ.tail m))
      (use_handler-IsTidy e o (λ same. none_out (Memᴰ.head (sym same))) h)

use_handlers_end :
    (es : List Use) (o : Owners) (e : Use)
    → Memᴰ e es
    → Stops e
    → has_ended (use_handlers es o) ≡ true
unfolding use_handlers
use_handlers_end [] o e m h = elim m [ ]
use_handlers_end (d ∷ es) o e (Memᴰ.head same) h =
    all_stay_ended es (use_handler d o) (ends_here d o (rw same at h))
use_handlers_end (d ∷ es) o e (Memᴰ.tail m) h = use_handlers_end es (use_handler d o) e m h

module _ {Address : Type 0} (make_address : Bytes → Outcome Address) where
  -- Whatever is done with copies of the handler that `StartServer` has returned: once `Stop` has been
  -- called on one of them, or one has been destroyed, though others are left, the server has ended;
  -- and unless the context has run out of work by itself, every thread of a stopped server has been
  -- joined, and the lifetime, if the last handler has been destroyed, was freed with no thread to
  -- join.
  pub handlers-IsTidy :
      (config : ServerConfig) (setup : Setup) (l : ServerLifetime) (es : List Use)
      → start_server make_address config setup ≡ started l
      → ((e : Use) → Memᴰ e es → Stops e → has_ended (use_handlers es (owned 0 l)) ≡ true)
        × (¬ Memᴰ out_of_work es → IsTidy (use_handlers es (owned 0 l)))
  unfolding start_server
  handlers-IsTidy config setup l es starts =
      let (_, same) = launch-started config setup (make_address config.address) l starts in
      let running : l.stopped ≡ false = ap (λ (k : ServerLifetime). k.stopped) same in
      (
        use_handlers_end es (owned 0 l),
        λ none_out. use_handlers-IsTidy es (owned 0 l) none_out (λ e. cc),
      )
