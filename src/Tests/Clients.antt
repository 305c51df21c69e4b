-- ===== src/Tests/Clients.antt =====
-- The harness at concrete inputs.
use icesmtp.Engine.Stream.Transparency.{received}
use icesmtp.Engine.Stream.{Progress, stream_data, stop, complete}
use icesmtp.Harness.Client.{Harness, out_of_fuel, new_harness, send_data, stuffed, read_response}
use icesmtp.Harness.Expect.{IsExpected, expect-bytes}
use icesmtp.Harness.Client.{expect}
use icesmtp.Harness.Pipe
use icesmtp.Harness.Returns.{read_response_returns}
use icesmtp.Harness.Sending.Received.{message_of, stream_data-send_data}
use icesmtp.Harness.Sending.{arrivals}
use icesmtp.Harness.Client.{other_code}
use icesmtp.Harness.Conversation.{ConversationStep, stopped, run_conversation}
use icesmtp.Harness.Conversation.Scripted.{
  IsAnswered, IsConversation, verdict, sent, run_conversation_lem,
}
use icesmtp.Prelude.{
  ℕ, zero, suc, List, Option, String, true, false, [], ◌∷◌, ◌++◌, none, some, Bytes, codes, ◌≡◌,
  ◌≢◌, refl, arith,
}
use icesmtp.Protocol.Reply.{Response, bytes, new_response, spell_line}
use icesmtp.Text.Number.{decimal}
use icesmtp.Session.Connection.{eof}
use icesmtp.Tests.Sample.{config, builder}
use icesmtp.Text.Search.{split, trim_suffix, has_prefix, has_suffix}
use icesmtp.Harness.Client.{send_lines, send, send_raw}
use icesmtp.Parser.{stuff_line}

abbrev reply : Response
reply = record {
  code = 250;
  enhanced_code = none;
  lines = codes "mx.test greets you" ∷ codes "" ∷ codes "HELP" ∷ [];
}

-- The reply stands in the buffer, with the next one behind it.
abbrev ready : Harness
ready =
    let h = new_harness in
    record h { output = record h.output { buf = bytes reply ++ codes "221 Bye\r\n" } }

expect-bytes_example :
    IsExpected 250 reply (codes "221 Bye\r\n") ready (expect (λ _. none) 250 ready)
expect-bytes_example =
    expect-bytes (λ _. none) 250 reply (codes "221 Bye\r\n") ready (λ _. refl) (omega arith)
      (omega arith) (refl, (refl, (refl, tt))) refl

read_response_returns_example : (read_response (λ _. none) ready).1 ≢ out_of_fuel
read_response_returns_example = read_response_returns (λ _. none) ready

abbrev text : Bytes
text = codes "hi\n.dot\r\n\nend"

text_on_wire : (send_data text new_harness).input.buf ≡ codes "hi\r\n..dot\r\n\r\nend\r\n.\r\n"
unfolding send_data send_lines send send_raw stuffed Pipe.write new_harness Pipe.new_pipe_buffer
    split trim_suffix has_prefix has_suffix
text_on_wire = refl

abbrev opening : Progress
opening = record {
  clock = 0;
  builder = record builder { data_writer = some false };
  total = 0;
  bytes_read = 0;
}

stream_data-send_data_example :
    stream_data
      (λ _. none)
      config.limits
      eof
      (arrivals [] (send_data text new_harness).input.buf)
      opening
    ≡ stop [] (received (message_of text) opening) complete
unfolding new_harness Pipe.new_pipe_buffer split trim_suffix has_prefix has_suffix stuff_line
stream_data-send_data_example =
    stream_data-send_data (λ _. none) config.limits eof text new_harness opening refl refl
      (λ _. refl) refl
      ((λ h. omega arith), ((λ h. omega arith), ((λ h. omega arith), ((λ h. omega arith), tt))))
      (λ h. omega arith)

abbrev greeting : Response
greeting = new_response 220 (codes "test.example.com ESMTP icesmtp")

abbrev ask : String → ConversationStep
ask s = record {
  description = codes s;
  sends = codes s;
  sends_raw = none;
  expects = 250;
  expects_any = false;
  delay = 0;
}

-- The greeting is waited for; NOOP may have any answer, HELO has one, and QUIT is not answered
-- with 250.
abbrev script : List ConversationStep
script =
    record (ask "") { expects = 220 }
    ∷ record (ask "NOOP") { expects = 0; expects_any = true }
    ∷ ask "HELO client.test"
    ∷ record (ask "") { expects = 0; sends_raw = some (codes "HELP\r\n") }
    ∷ ask "QUIT"
    ∷ ask "NOOP"
    ∷ []

abbrev answers : List (Option Response)
answers =
    some greeting
    ∷ some (new_response 503 (codes "Bad sequence of commands"))
    ∷ some (new_response 250 (codes "test.example.com"))
    ∷ none
    ∷ some (new_response 221 (codes "Bye"))
    ∷ some (new_response 250 (codes "OK"))
    ∷ []

abbrev written : List (Option Response) → ℕ → Bytes
written [] n = []
written (o ∷ os) zero = elim o [ none ↦ [] | some r ↦ bytes r ]
written (o ∷ os) (suc n) = written os n

script-IsAnswered : IsAnswered (written answers) 0 script answers
script-IsAnswered = (
  record { whole = refl; low = omega arith; high = omega arith; inside = (refl, tt); once = refl },
  (
    record {
      whole = refl;
      low = omega arith;
      high = omega arith;
      inside = (refl, tt);
      once = refl;
    },
    (
      record {
        whole = refl;
        low = omega arith;
        high = omega arith;
        inside = (refl, tt);
        once = refl;
      },
      (
        record { nothing = refl; no_code = refl; not_any = refl },
        (
          record {
            whole = refl;
            low = omega arith;
            high = omega arith;
            inside = (refl, tt);
            once = refl;
          },
          (
            record {
              whole = refl;
              low = omega arith;
              high = omega arith;
              inside = (refl, tt);
              once = refl;
            },
            tt,
          ),
        ),
      ),
    ),
  ),
)

run_conversation_lem_example :
    IsConversation script answers new_harness
      (run_conversation (λ _ _. none) (written answers) script new_harness)
unfolding new_harness Pipe.new_pipe_buffer
run_conversation_lem_example =
    run_conversation_lem (λ _ _. none) (written answers) (λ _ _. refl) script answers new_harness
      script-IsAnswered refl refl refl

stops_at_quit :
    (verdict script answers ≡ stopped (codes "QUIT") (other_code (codes "221 Bye\r\n" ∷ [])))
    × (sent script answers ≡ codes "NOOP\r\nHELO client.test\r\nHELP\r\nQUIT\r\n")
unfolding spell_line decimal
stops_at_quit = (refl, refl)
