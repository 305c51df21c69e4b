-- ===== src/Mem/Storage.antt =====
-- mem/storage.go and storage.go: messages kept in memory by the identifier of their envelope. Every
-- method changes them under one hold of the lock. A time is a number, an argument,
-- and the clock is taken to stand still during a call.
pub mod Replay
use icesmtp.Envelope.{Envelope, data_size}
use icesmtp.Prelude.{
  ℕ, ◌+◌, ◌%◌, ◌^◌, Bool, true, false, List, [], ◌∷◌, ◌++◌, Option, none, some, Bytes, codes,
  length, if◌then◌else◌, map,
}
use icesmtp.Session.Connection.{Failure}
use icesmtp.Table
use icesmtp.Table.{Table, get, has, put}

pub record StoredMessage : Type 0 where
  pub envelope : Envelope
  pub stored_at : ℕ
  pub content : Bytes

-- The counters are `uint64`.
pub record StorageMetrics : Type 0 where
  pub messages_stored : ℕ
  pub bytes_stored : ℕ
  pub store_errors : ℕ
  pub store_latency_ns : ℕ

-- No code sets `Backend`.
pub record StorageReceipt : Type 0 where
  pub message_id : Bytes
  pub envelope_id : Bytes
  pub stored_at : ℕ
  pub bytes_written : ℕ

-- No code sets `Retryable`.
pub record StorageError : Type 0 where
  pub operation : Bytes
  pub envelope_id : Bytes
  pub cause : Failure
  pub message : Bytes

pub record Storage : Type 0 where
  pub messages : Table StoredMessage
  pub metrics : StorageMetrics

-- What `io.ReadAll` returns.
pub data Contents : Type 0 where
  all_read : Bytes → Contents
  broken : Failure → Contents

pub data Stored : Type 0 where
  ok : StorageReceipt → Stored
  err : StorageError → Stored

abbrev pub wrap : ℕ → ℕ
wrap n = n % 2 ^ 64

unfoldable pub new_storage : Storage
new_storage = record {
  messages = [];
  metrics = record {
    messages_stored = 0;
    bytes_stored = 0;
    store_errors = 0;
    store_latency_ns = 0;
  };
}

-- From `msg := &StoredMessage{...}` on, at the time `now` and after `latency` nanoseconds.
unfoldable pub keep : ℕ → ℕ → Envelope → Bytes → Storage → Storage × StorageReceipt
unfolding put
keep now latency envelope content s = (
  record {
    messages =
        put envelope.id (record { envelope = envelope; stored_at = now; content = content })
          s.messages;
    metrics = record s.metrics {
      messages_stored = wrap (s.metrics.messages_stored + 1);
      bytes_stored = wrap (s.metrics.bytes_stored + length content);
      store_latency_ns = latency;
    };
  },
  record {
    message_id = envelope.id;
    envelope_id = envelope.id;
    stored_at = now;
    bytes_written = length content;
  },
)

-- `Store`, whose error is always nil.
unfoldable pub store : ℕ → ℕ → Envelope → Storage → Storage × StorageReceipt
unfolding keep
store now latency envelope s = keep now latency envelope envelope.content s

abbrev pub with_contents : ℕ → ℕ → Envelope → Contents → Storage → Storage × Stored
unfolding keep
with_contents now latency envelope (broken cause) s = (
  record s { metrics = record s.metrics { store_errors = wrap (s.metrics.store_errors + 1) } },
  err (record {
    operation = codes "StoreStream";
    envelope_id = envelope.id;
    cause = cause;
    message = codes "failed to read message data";
  }),
)
with_contents now latency envelope (all_read content) s =
    let (t, receipt) = keep now latency envelope content s in (t, ok receipt)

unfoldable pub store_stream : ℕ → ℕ → Envelope → Contents → Storage → Storage × Stored
unfolding keep
store_stream now latency envelope contents s = with_contents now latency envelope contents s

-- `Get`.
unfoldable pub find : Bytes → Storage → Option StoredMessage
unfolding get
find id s = get id s.messages

unfoldable pub list : Storage → List StoredMessage
list s = map (λ (p : Bytes × StoredMessage). p.1) s.messages

unfoldable pub count : Storage → ℕ
count s = length s.messages

unfoldable pub delete : Bytes → Storage → Storage × Bool
unfolding Table.delete get
delete id s =
    if has id s.messages
    then (record s { messages = Table.delete id s.messages }, true)
    else (s, false)

-- The metrics stay.
unfoldable pub clear : Storage → Storage
clear s = record s { messages = [] }

-- `StorageError.Error`, with the texts of the causes.
unfoldable pub spell_error : (Failure → Bytes) → StorageError → Bytes
spell_error text e = e.message ++ (codes ": " ++ text e.cause)

-- `NullStorage.Store`, which keeps nothing; its receipt has no time.
unfoldable pub null_store : Envelope → StorageReceipt
unfolding data_size
null_store envelope = record {
  message_id = codes "null";
  envelope_id = envelope.id;
  stored_at = 0;
  bytes_written = data_size envelope;
}

-- `NullStorage.StoreStream` of these bytes, up to the error of the reader, which is dropped.
unfoldable pub null_store_stream : Envelope → Bytes → StorageReceipt
null_store_stream envelope content = record {
  message_id = codes "null";
  envelope_id = envelope.id;
  stored_at = 0;
  bytes_written = length content;
}
