-- ===== src/Engine/Arrival.antt =====
-- engine.go: the engine looks at its connection by reading only, so what arrives behind the reads
-- that a step takes makes no difference to it. Here: the steps that read nothing.
pub mod Data
pub mod Handlers
pub mod Rounds
pub mod Schedule
use icesmtp.Engine.State.{Engine, write_response, count_written}
use icesmtp.Prelude.{
  ℕ, ◌+◌, List, [], ◌∷◌, ◌++◌, Option, none, some, Bytes, length, ◌≡◌, refl, sym, ap, ◌∙◌,
}
use icesmtp.Protocol.Reply.{Response}
use icesmtp.Session.Connection.{Connection, Failure, Read, pop_write}
use icesmtp.Session.Connection

-- The same engine, when more has arrived.
abbrev pub extend : List Read → Engine → Engine
extend more e = record e { conn = record e.conn { reads = e.conn.reads ++ more } }

abbrev pub onto {ℓ} : {R : Type ℓ} → List Read → Engine × R → Engine × R
onto more (e, r) = (extend more e, r)

-- Each read that was made between these engines was one that had arrived.
abbrev pub IsWithin : Engine → Engine → Type 0
IsWithin e f = f.conn.clock + length f.conn.reads ≡ e.conn.clock + length e.conn.reads

-- What a step comes to when more has arrived, if it read no more than had arrived before.
abbrev pub Lifted :
    {R : Type 0} → List Read → Engine → Option (Engine × R) → Option (Engine × R) → Type 0
Lifted more e none after = after ≡ none
Lifted more e (some (f, r)) after = IsWithin e f → after ≡ some (extend more f, r)

pop_write-extend :
    (r : Response) (c : Connection) (more : List Read) (ws : List (Option Failure))
    → pop_write r (record c { reads = c.reads ++ more }) ws ≡ (
      record (pop_write r c ws).0 { reads = (pop_write r c ws).0.reads ++ more },
      (pop_write r c ws).1,
    )
pop_write-extend r c more [] = refl
pop_write-extend r c more (none ∷ ws) = refl
pop_write-extend r c more (some f ∷ ws) = refl

pub write_response-extend :
    (more : List Read) (r : Response) (e : Engine)
    → write_response r (extend more e) ≡ onto more (write_response r e)
unfolding write_response Connection.write
write_response-extend more r e =
    ap
      (λ (p : Connection × Option Failure). (
        record e {
          conn = p.0;
          stats = record e.stats { bytes_written = count_written p.1 r e.stats.bytes_written };
        },
        p.1,
      ))
      (pop_write-extend r e.conn more e.conn.writes)

pub write_response-IsWithin : (r : Response) (e : Engine) → IsWithin e (write_response r e).0
unfolding write_response Connection.write
write_response-IsWithin r e = written e.conn.writes
  where
    written :
        (ws : List (Option Failure))
        → (pop_write r e.conn ws).0.clock + length (pop_write r e.conn ws).0.reads
          ≡ e.conn.clock + length e.conn.reads
    written [] = refl
    written (none ∷ ws) = refl
    written (some f ∷ ws) = refl

-- A step that begins where another has read nothing beyond what had arrived.
pub Lifted-later :
    {R : Type 0} (more : List Read) (e f : Engine) (now after : Option (Engine × R))
    → IsWithin e f
    → Lifted more f now after
    → Lifted more e now after
Lifted-later more e f none after h k = k
Lifted-later more e f (some (g, r)) after h k = λ within. k (within ∙ sym h)
