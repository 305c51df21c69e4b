-- ===== src/Mem/Storage/Replay.antt =====
-- What the storage of mem/storage.go promises: a map from identifiers to messages, in which the last
-- store under an identifier stands, and counters of the calls.
pub mod Account
use icesmtp.Envelope.{Envelope}
use icesmtp.Mem.Storage.{
  StoredMessage, StorageMetrics, Storage, Contents, all_read, broken, wrap, new_storage, keep,
  store, store_stream, find, count, delete, clear,
}
use icesmtp.Prelude.{
  ℕ, ◌<◌, ◌+◌, ◌%◌, ◌^◌, ◌≤◌, List, [], ◌∷◌, Option, none, some, Bytes, equal_iff, length, ◌≡◌,
  refl, ap, ◌∙◌, arith,
}
use icesmtp.Table.Laws.{get-put, get-delete, length-put, length-delete, update}
use icesmtp.Table.{get, put}
use mathlib.Core.Path.{fun_ext}

-- The calls that change a storage, with their times and what is read of a stream.
pub data Op : Type 0 where
  save : ℕ → ℕ → Envelope → Op
  stream : ℕ → ℕ → Envelope → Contents → Op
  drop_message : Bytes → Op
  drop_all : Op

unfoldable pub perform : Op → Storage → Storage
unfolding store store_stream delete clear
perform (save now latency e) s = (store now latency e s).0
perform (stream now latency e c) s = (store_stream now latency e c s).0
perform (drop_message id) s = (delete id s).0
perform drop_all s = clear s

unfoldable pub perform_all : List Op → Storage → Storage
unfolding perform
perform_all [] s = s
perform_all (o ∷ os) s = perform_all os (perform o s)

abbrev pub message : ℕ → Envelope → Bytes → StoredMessage
message now e content = record { envelope = e; stored_at = now; content = content }

-- The call, on a function from identifiers.
abbrev pub change : Op → (Bytes → Option StoredMessage) → Bytes → Option StoredMessage
change (save now _ e) f = update e.id (some (message now e e.content)) f
change (stream now _ e (all_read content)) f = update e.id (some (message now e content)) f
change (stream _ _ e (broken _)) f = f
change (drop_message id) f = update id none f
change drop_all f = λ q. none

abbrev pub replay : List Op → (Bytes → Option StoredMessage) → Bytes → Option StoredMessage
replay [] f = f
replay (o ∷ os) f = replay os (change o f)

-- The messages and bytes that a call stores, and its errors.
abbrev pub messages_of : Op → ℕ
messages_of (save _ _ _) = 1
messages_of (stream _ _ _ (all_read _)) = 1
messages_of _ = 0

abbrev pub bytes_of : Op → ℕ
bytes_of (save _ _ e) = length e.content
bytes_of (stream _ _ _ (all_read content)) = length content
bytes_of _ = 0

abbrev pub errors_of : Op → ℕ
errors_of (stream _ _ _ (broken _)) = 1
errors_of _ = 0

abbrev pub total : (Op → ℕ) → List Op → ℕ
total f [] = 0
total f (o ∷ os) = f o + total f os

find-keep :
    (now latency : ℕ) (e : Envelope) (content : Bytes) (s : Storage) (q : Bytes)
    → find q (keep now latency e content s).0
      ≡ update e.id (some (message now e content)) (λ p. find p s) q
unfolding find keep
find-keep now latency e content s q = get-put e.id (message now e content) s.messages q

find-delete :
    (id : Bytes) (s : Storage) (q : Bytes)
    → find q (delete id s).0 ≡ update id none (λ p. find p s) q
unfolding find delete
find-delete id s q = ground (arith, get-delete id s.messages q, equal_iff id q)

find-perform :
    (o : Op) (s : Storage) (q : Bytes) → find q (perform o s) ≡ change o (λ p. find p s) q
unfolding perform store store_stream
find-perform (save now latency e) s q = find-keep now latency e e.content s q
find-perform (stream now latency e (all_read content)) s q = find-keep now latency e content s q
find-perform (stream now latency e (broken f)) s q = unfold find in refl
find-perform (drop_message id) s q = find-delete id s q
find-perform drop_all s q = unfold find clear get in refl

pub find-perform_all :
    (os : List Op) (s : Storage) (q : Bytes)
    → find q (perform_all os s) ≡ replay os (λ p. find p s) q
unfolding perform_all
find-perform_all [] s q = refl
find-perform_all (o ∷ os) s q =
    find-perform_all os (perform o s) q
    ∙ ap (λ (f : Bytes → Option StoredMessage). replay os f q) (fun_ext (find-perform o s))
