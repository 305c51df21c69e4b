-- ===== src/Engine/Data.antt =====
-- engine.go: the handler of DATA.
pub mod Ends
pub mod Outcome
use icesmtp.Engine.Greet.{move}
use icesmtp.Engine.State.{Engine, show, notify, on_data_start, on_data_end, write_response}
use icesmtp.Engine.Stream.{
  Streamed, Progress, StreamEnd, complete, too_large, too_long, lost, stream_data,
}
use icesmtp.Envelope.Build.{
  Builder, BuilderError, Finalized, ok, err, open_writer, close_writer, finalize,
}
use icesmtp.Envelope.{Envelope, recipient_count}
use icesmtp.Parser.{Command}
use icesmtp.Prelude.{ℕ, suc, ◌+◌, [], ◌∷◌, ◌++◌, Option, none, some, Bytes, codes}
use icesmtp.Protocol.Command.{data_cmd}
use icesmtp.Protocol.Machine.{transition_for_command, reset, data_complete, abort}
use icesmtp.Protocol.Reply.{Response, new_response, response_start_mail_input}
use icesmtp.Protocol.State.{receiving, identified}
use icesmtp.Session.Connection.{Failure, timed_out}

-- `e.sm.Reset(); e.state.State = StateIdentified; e.envelope = nil`, the end of every branch.
unfoldable pub end_transaction : Engine → Engine
unfolding reset
end_transaction e = show identified (record e { sm = reset e.sm; envelope = none })

abbrev pub local_error : Bytes → Response
local_error = new_response 451

-- The response to an error of `streamData`.
unfoldable pub stream_response : StreamEnd → Response
stream_response too_large = new_response 552 (codes "Message size exceeds limit")
stream_response too_long = new_response 500 (codes "Line too long")
stream_response (lost timed_out) = local_error (codes "Timeout receiving message data")
stream_response _ = local_error (codes "Error receiving message data")

-- The answer of the storage, `none` for success.
abbrev pub store : Option (ℕ → Envelope → Option Failure) → ℕ → Envelope → Option Failure
store none n env = none
store (some f) n env = f n env

abbrev pub keep_stored : Option (ℕ → Envelope → Option Failure) → Envelope → Engine → Engine
keep_stored none env e = e
keep_stored (some _) env e = record e { stored = e.stored ++ env ∷ [] }

-- From the statistics on: the message is accepted.
unfoldable pub accept_message : Envelope → Engine → Engine × Response
unfolding end_transaction data_complete notify recipient_count
accept_message env e =
    let counted = record e {
      stats = record e.stats {
        message_count = suc e.stats.message_count;
        transaction_count = suc e.stats.transaction_count;
        recipient_count = e.stats.recipient_count + recipient_count env;
      };
      sm = (data_complete e.sm).0;
    } in
    (
      notify (on_data_end env) (end_transaction counted),
      new_response 250 (codes "OK, message " ++ (env.id ++ codes " accepted")),
    )

-- From `Storage.Store` on.
abbrev pub deliver : Envelope → Engine → Option Failure → Engine × Response
deliver env e (some _) = (end_transaction e, local_error (codes "Unable to store message"))
deliver env e none = accept_message env (keep_stored e.config.storage env e)

-- From `Finalize` on.
abbrev pub close_envelope : Engine → Builder × Finalized → Engine × Response
close_envelope e (b, err _) = (end_transaction e, local_error (codes "Unable to finalize message"))
close_envelope e (b, ok env) = deliver env e (store e.config.storage e.stats.command_count env)

-- Behind `streamData`. The error of closing the writer is always nil.
abbrev pub after_stream : Engine → Builder → StreamEnd → Engine × Response
after_stream e b complete = close_envelope e (finalize (close_writer b))
after_stream e b why = (end_transaction e, stream_response why)

-- The loop's variables go back to the engine.
abbrev pub resume : Engine → Streamed → Engine × Response
resume e s =
    after_stream
      (record e {
        conn = record e.conn { reads = s.reads; clock = s.clock };
        stats = record e.stats { bytes_read = s.bytes_read };
      })
      s.builder s.ended

abbrev pub progress : Engine → Builder → Progress
progress e b = record {
  clock = e.conn.clock;
  builder = b;
  total = 0;
  bytes_read = e.stats.bytes_read;
}

-- From `streamData` on.
unfoldable pub receive : Engine → Builder → Engine × Response
unfolding end_transaction stream_response accept_message finalize close_writer
receive e b =
    resume e
      (stream_data e.around.context e.config.limits e.conn.at_end e.conn.reads (progress e b))

abbrev pub with_writer : Engine → Builder × Option BuilderError → Engine × Response
with_writer e (b, some _) = (end_transaction e, local_error (codes "Unable to accept message"))
with_writer e (b, none) = receive e b

-- The zero `Response` that the handler returns where the intermediate response cannot be written.
abbrev pub no_response : Response
no_response = record { code = 0; enhanced_code = none; lines = [] }

-- Behind the intermediate response. With no envelope the source would panic: `none`.
abbrev pub after_prompt : Option Builder → Engine × Option Failure → Option (Engine × Response)
after_prompt envelope (e, some _) = some (record e { sm = (abort e.sm).0 }, no_response)
after_prompt none (e, none) = none
after_prompt (some b) (e, none) = some (with_writer e (open_writer b))

unfoldable pub handle_data : Command → Engine → Option (Engine × Response)
unfolding receive transition_for_command notify write_response abort open_writer
handle_data cmd e =
    let f = notify on_data_start (show receiving (move data_cmd e)) in
    after_prompt f.envelope (write_response response_start_mail_input f)
