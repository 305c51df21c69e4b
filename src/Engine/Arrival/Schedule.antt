-- ===== src/Engine/Arrival/Schedule.antt =====
-- engine.go: the engine, the client and the network take their turns. The lines of a client may
-- arrive all at once, one by one, or as answers come back, and the engine goes on whenever what it
-- reads next is there.
use icesmtp.Engine.Arrival.{extend, IsWithin}
use icesmtp.Engine.Arrival.Rounds.{turn-extend, extend_turn}
use icesmtp.Engine.Loop.{Ending, finish, run_loop, turn, leave, again}
use icesmtp.Engine.State.{Engine}
use icesmtp.Prelude.{ℕ, suc, ◌+◌, List, [], ◌∷◌, Option, false, ◌≡◌, refl, sym, ◌∙◌, ap, arith}
use icesmtp.Protocol.State.{start_tls, same}
use icesmtp.Session.Config.{DisconnectReason}
use icesmtp.Session.Connection.{Failure, Read}
use mathlib.Core.List.{append_assoc}

-- The engine, whose connection holds what has arrived, and what is on its way to it.
pub record System : Type 0 where
  pub pending : List Read
  pub engine : Engine

-- Something arrives, or the engine takes a turn on what has arrived. A turn that would read more
-- waits. The TLS upgrade is no such step: `ResetReader` drops the lines that have arrived before
-- it, so that it does depend on the time at which they arrive.
pub data Step : System → System → Type 0 where
  arrive :
      {r : Read} {rs : List Read} {e : Engine}
      → Step
          (record { pending = r ∷ rs; engine = e })
          (record { pending = rs; engine = extend (r ∷ []) e })
  serve :
      {rs : List Read} {e f : Engine}
      → same e.session.state start_tls ≡ false
      → turn e ≡ again f
      → IsWithin e f
      → Step (record { pending = rs; engine = e }) (record { pending = rs; engine = f })

-- The systems that steps lead to, in any order.
pub data Reach : System → System → Type 0 where
  here : {s : System} → Reach s s
  onward : {s t u : System} → Step s t → Reach t u → Reach s u

-- The engine leaves its main loop, by a turn on what has arrived.
pub data Ends : System → Ending → Type 0 where
  ends :
      {rs : List Read} {e f : Engine} {reason : DisconnectReason} {why : Option Failure}
      → same e.session.state start_tls ≡ false
      → turn e ≡ leave reason why f
      → IsWithin e f
      → Ends (record { pending = rs; engine = e }) (finish reason why (extend rs f))

-- The engine to which all has arrived.
abbrev pub whole : System → Engine
whole s = extend s.pending s.engine

extend-extend :
    (r : Read) (rs : List Read) (e : Engine) → extend rs (extend (r ∷ []) e) ≡ extend (r ∷ rs) e
extend-extend r rs e =
    ap (λ (reads : List Read). record e { conn = record e.conn { reads = reads } })
      (append_assoc e.conn.reads (r ∷ []) rs)

run_loop-again : (k : ℕ) (e f : Engine) → turn e ≡ again f → run_loop (suc k) e ≡ run_loop k f
unfolding run_loop
run_loop-again k e f goes = rw (goes, run_loop) refl

run_loop-leave :
    (k : ℕ) (e f : Engine) (reason : DisconnectReason) (why : Option Failure)
    → turn e ≡ leave reason why f
    → run_loop (suc k) e ≡ finish reason why f
unfolding run_loop
run_loop-leave k e f reason why goes = rw (goes, run_loop) refl

rounds : (m n : ℕ) (e : Engine) → m ≡ n → run_loop m e ≡ run_loop n e
rounds m n e = ap (λ (k : ℕ). run_loop k e)

run_loop-Step :
    {s t : System}
    → Step s t
    → (n : ℕ) × ((k : ℕ) → run_loop (n + k) (whole s) ≡ run_loop k (whole t))
run_loop-Step (arrive {r} {rs} {e}) = (
  0,
  λ k.
      rounds (0 + k) k (extend (r ∷ rs) e) (omega arith)
      ∙ ap (run_loop k) (sym (extend-extend r rs e)),
)
run_loop-Step (serve {rs} {e} {f} plain goes within) = (
  1,
  λ k.
      rounds (1 + k) (suc k) (extend rs e) (omega arith)
      ∙ run_loop-again k (extend rs e) (extend rs f)
          (turn-extend rs e plain (rw goes within) ∙ ap (extend_turn rs) goes),
)

-- Whatever the order in which reads arrive and the engine takes turns, what it comes to by some
-- number of rounds of the main loop is what it comes to by those rounds when all the reads have
-- arrived before them: from the engine with all that is on its way, that many rounds and any number
-- behind them end as the latter do from the engine reached, with all that is still on its way. No
-- turn among them is the TLS upgrade, and each reads no more than has arrived.
pub run_loop-Reach :
    {s t : System}
    → Reach s t
    → (n : ℕ) × ((k : ℕ) → run_loop (n + k) (whole s) ≡ run_loop k (whole t))
run_loop-Reach (here {s}) = (0, λ k. rounds (0 + k) k (whole s) (omega arith))
run_loop-Reach (onward {s} {t} {u} one rest) =
    let (m, first) = run_loop-Step one in
    let (n, behind) = run_loop-Reach rest in
    (
      m + n,
      λ k. rounds (m + n + k) (m + (n + k)) (whole s) (omega arith) ∙ first (n + k) ∙ behind k,
    )

run_loop-Ends : {s : System} {x : Ending} → Ends s x → (k : ℕ) → run_loop (suc k) (whole s) ≡ x
run_loop-Ends (ends {rs} {e} {f} {reason} {why} plain leaves within) k =
    run_loop-leave k (extend rs e) (extend rs f) reason why
      (turn-extend rs e plain (rw leaves within) ∙ ap (extend_turn rs) leaves)

-- A session ends the same way, with the same responses sent, messages stored, statistics and
-- notices and the same reads left over, in whatever order its reads arrive between the turns of the
-- engine: if two orders that begin alike, without a TLS upgrade, both lead out of the main loop,
-- then to the same result.
pub Reach-Ends :
    {s t u : System} {x y : Ending} → Reach s t → Ends t x → Reach s u → Ends u y → x ≡ y
Reach-Ends {s} reach_t ends_t reach_u ends_u =
    let (m, from_t) = run_loop-Reach reach_t in
    let (n, from_u) = run_loop-Reach reach_u in
    sym (from_t (suc n) ∙ run_loop-Ends ends_t n)
    ∙ rounds (m + suc n) (n + suc m) (whole s) (omega arith)
    ∙ from_u (suc m)
    ∙ run_loop-Ends ends_u m
