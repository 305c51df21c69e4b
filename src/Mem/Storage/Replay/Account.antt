-- ===== src/Mem/Storage/Replay/Account.antt =====
-- The counters of the storage count its calls.
use icesmtp.Mem.Storage.Replay.{
  Op, save, stream, drop_message, drop_all, perform, perform_all, message, replay, messages_of,
  bytes_of, errors_of, total, find-perform_all,
}
use icesmtp.Mem.Storage.{
  StoredMessage, StorageMetrics, Storage, all_read, broken, wrap, new_storage, keep, store,
  store_stream, find, count, delete, clear,
}
use icesmtp.Prelude.{
  ℕ, ◌<◌, ◌+◌, ◌%◌, ◌^◌, ◌≤◌, List, [], ◌∷◌, none, Bytes, length, ◌≡◌, refl, ap, ◌∙◌, arith,
}
use icesmtp.Table.Laws.{length-put, length-delete}
use icesmtp.Table.{get, put}

-- The storage, after so many messages, bytes and errors more.
record Grew (messages bytes errors : ℕ) (s t : Storage) : Type 0 where
  more_messages : t.metrics.messages_stored ≡ wrap (s.metrics.messages_stored + messages)
  more_bytes : t.metrics.bytes_stored ≡ wrap (s.metrics.bytes_stored + bytes)
  more_errors : t.metrics.store_errors ≡ wrap (s.metrics.store_errors + errors)
  few : count t ≤ count s + messages

-- The counters are `uint64`.
record Fits (s : Storage) : Type 0 where
  messages_fit : s.metrics.messages_stored < 2 ^ 64
  bytes_fit : s.metrics.bytes_stored < 2 ^ 64
  errors_fit : s.metrics.store_errors < 2 ^ 64

length-put_le :
    (id : Bytes) (m : StoredMessage) (s : Storage)
    → length (put id m s.messages) ≤ length s.messages + 1
unfolding get
length-put_le id m s = ground (arith, length-put id m s.messages)

delete-metrics : (id : Bytes) (s : Storage) → (delete id s).0.metrics ≡ s.metrics
unfolding delete
delete-metrics id s = ground arith

delete-count : (id : Bytes) (s : Storage) → length (delete id s).0.messages ≤ length s.messages
unfolding delete
delete-count id s = ground (arith, length-delete id s.messages)

perform-Grew :
    (o : Op) (s : Storage)
    → Fits s
    → Grew (messages_of o) (bytes_of o) (errors_of o) s (perform o s)
unfolding perform store store_stream keep count
perform-Grew (save now latency e) s h = record {
  more_messages = refl;
  more_bytes = refl;
  more_errors = omega (arith, h.errors_fit);
  few = length-put_le e.id (message now e e.content) s;
}
perform-Grew (stream now latency e (all_read content)) s h = record {
  more_messages = refl;
  more_bytes = refl;
  more_errors = omega (arith, h.errors_fit);
  few = length-put_le e.id (message now e content) s;
}
perform-Grew (stream now latency e (broken f)) s h = record {
  more_messages = omega (arith, h.messages_fit);
  more_bytes = omega (arith, h.bytes_fit);
  more_errors = refl;
  few = omega arith;
}
perform-Grew (drop_message id) s h =
    let same = delete-metrics id s in
    record {
      more_messages =
          omega (arith, h.messages_fit, ap (λ (m : StorageMetrics). m.messages_stored) same);
      more_bytes = omega (arith, h.bytes_fit, ap (λ (m : StorageMetrics). m.bytes_stored) same);
      more_errors = omega (arith, h.errors_fit, ap (λ (m : StorageMetrics). m.store_errors) same);
      few = omega (arith, delete-count id s);
    }
perform-Grew drop_all s h =
    unfold clear in
    record {
      more_messages = omega (arith, h.messages_fit);
      more_bytes = omega (arith, h.bytes_fit);
      more_errors = omega (arith, h.errors_fit);
      few = omega arith;
    }

Grew-Fits : {m b e : ℕ} {s t : Storage} → Grew m b e s t → Fits t
Grew-Fits g = record {
  messages_fit = omega (arith, g.more_messages);
  bytes_fit = omega (arith, g.more_bytes);
  errors_fit = omega (arith, g.more_errors);
}

Grew-trans :
    {m b e m2 b2 e2 : ℕ} {s t u : Storage}
    → Grew m b e s t
    → Grew m2 b2 e2 t u
    → Grew (m + m2) (b + b2) (e + e2) s u
Grew-trans g h = record {
  more_messages = omega (arith, g.more_messages, h.more_messages);
  more_bytes = omega (arith, g.more_bytes, h.more_bytes);
  more_errors = omega (arith, g.more_errors, h.more_errors);
  few = omega (arith, g.few, h.few);
}

perform_all-Grew :
    (os : List Op) (s : Storage)
    → Fits s
    → Grew (total messages_of os) (total bytes_of os) (total errors_of os) s (perform_all os s)
unfolding perform_all
perform_all-Grew [] s h = record {
  more_messages = omega (arith, h.messages_fit);
  more_bytes = omega (arith, h.bytes_fit);
  more_errors = omega (arith, h.errors_fit);
  few = omega arith;
}
perform_all-Grew (o ∷ os) s h =
    Grew-trans (perform-Grew o s h)
      (perform_all-Grew os (perform o s) (Grew-Fits (perform-Grew o s h)))

-- A storage after these calls: it reads as the calls on an empty map, and its counters count them.
pub record IsAccount (os : List Op) (s : Storage) : Type 0 where
  pub found : (q : Bytes) → find q s ≡ replay os (λ p. none) q
  pub messages : s.metrics.messages_stored ≡ total messages_of os % 2 ^ 64
  pub bytes : s.metrics.bytes_stored ≡ total bytes_of os % 2 ^ 64
  pub errors : s.metrics.store_errors ≡ total errors_of os % 2 ^ 64
  pub bounded : count s ≤ total messages_of os

-- Whatever calls are made on a new storage: `Get` finds under each identifier the message that was
-- stored last under it, unless it was deleted since, and nothing else; the counters are the
-- numbers of the messages, the bytes and the errors of the calls, modulo 2 ^ 64; and there are at
-- most as many messages as were stored.
pub perform_all-IsAccount : (os : List Op) → IsAccount os (perform_all os new_storage)
unfolding new_storage
perform_all-IsAccount os =
    let empty : Storage = new_storage in
    let g =
      perform_all-Grew os empty (record {
        messages_fit = omega arith;
        bytes_fit = omega arith;
        errors_fit = omega arith;
      }) in
    record {
      found = λ q. find-perform_all os empty q ∙ unfold find get in refl;
      messages = omega (arith, g.more_messages);
      bytes = omega (arith, g.more_bytes);
      errors = omega (arith, g.more_errors);
      bounded = unfold count in omega (arith, g.few);
    }
