-- ===== src/Gateway/Replies.antt =====
-- Replies: the handler Reply of gateway/rpc.go, and readReplies and sendTransaction of
-- gateway/operations.go.
pub mod Counting
use pbft_2pc.Prelude.{
  ℕ, String, string_eq, nat_eq, Int64, add64, Bool, true, false, Option, none, some, List, [], ◌∷◌,
  ◌++◌, le64, assign, Table, ◌==◌, if◌then◌else◌, ◌+◌, Result, ok, err, panic, or_fail, ◌>>=◌, ◌>>◌,
}
use pbft_2pc.Messages.{SignedReply, Message}
use pbft_2pc.Config.{f}
use pbft_2pc.Deps.{Crypto, PublicKey}
use pbft_2pc.Cryptox.{verify_signature}

pub record ReplyResult : Type 0 where
  pub timestamp : Int64
  pub result : Bool
  pub server : String
  pub view : Int64
  pub client_seq : Int64

-- The counts of the two results for one timestamp, `map[bool]int`.
pub record Counts : Type 0 where
  pub successes : Int64
  pub failures : Int64

pub record Gateway : Type 0 where
  pub public_key_map : Table String PublicKey
  pub reply_map : Int64 → List ReplyResult
  pub res_count_map : Table Int64 Counts

module _ ⦃crypto : Crypto⦄ where
  -- The handler `Reply`: what it puts into the channel of results.
  unfoldable pub receive_reply : SignedReply → Gateway → Result ReplyResult
  unfolding verify_signature
  receive_reply req g = do
    key ← or_fail (g.public_key_map req.reply.server) "no public key found"
    verify_signature key (Message.reply req.reply) req.signature
    ok (record {
      timestamp = req.reply.timestamp;
      result = req.reply.result;
      server = req.reply.server;
      view = req.reply.view;
      client_seq = req.reply.client_seq;
    })

unfoldable pub count_result : Bool → Counts → Counts
count_result true c = record c { successes = add64 c.successes 1 }
count_result false c = record c { failures = add64 c.failures 1 }

-- One result read by `readReplies`. An assignment into the nil map of a timestamp that was never
-- sent ends the process.
unfoldable pub read_reply : ReplyResult → Gateway → Result Gateway
unfolding count_result
read_reply r g = elim (g.res_count_map r.timestamp) [
  | none ↦ panic
  | some c ↦ ok (record g {
    reply_map = assign r.timestamp (g.reply_map r.timestamp ++ r ∷ []) g.reply_map;
    res_count_map = assign r.timestamp (some (count_result r.result c)) g.res_count_map;
  })
]

unfoldable pub read_replies : List ReplyResult → Gateway → Result Gateway
unfolding read_reply
read_replies [] g = ok g
read_replies (r ∷ rs) g = read_reply r g >>= λ g'. read_replies rs g'

-- What `sendTransaction` resets before each attempt.
unfoldable pub start_attempt : Int64 → Int64 → Gateway → Gateway
start_attempt client_seq timestamp g = record g {
  reply_map = assign client_seq [] g.reply_map;
  res_count_map = assign timestamp (some (record { successes = 0; failures = 0 })) g.res_count_map;
}

-- The decision of one look at the counts: f+1 equal results, successes first. A missing entry reads
-- as two zeros.
unfoldable pub decision : Int64 → Gateway → Option Bool
decision timestamp g = elim (g.res_count_map timestamp) [
  | none ↦ none
  | some c ↦
      if le64 (f + 1) c.successes
      then some true
      else if le64 (f + 1) c.failures
      then some false
      else none
]

-- The inner loop of an attempt: a batch of results is read between two looks, and the timer expires
-- after the last one. The outcome is a decision, or none if the timer ended the attempt.
unfoldable pub await : Int64 → List (List ReplyResult) → Gateway → Result (Option Bool × Gateway)
unfolding decision read_replies
await timestamp [] g = ok (none, g)
await timestamp (batch ∷ batches) g = elim (decision timestamp g) [
  | some b ↦ ok (some b, g)
  | none ↦ elim (read_replies batch g) [
    | ok g' ↦ await timestamp batches g'
    | err text ↦ err text
    | panic ↦ panic
  ]
]

-- `sendTransaction`: attempts until a decision. `some` is the decision, with the number of attempts.
unfoldable pub send_transaction :
    Int64
    → Int64
    → List (List (List ReplyResult))
    → ℕ
    → Gateway
    → Result (Option (Bool × ℕ) × Gateway)
unfolding start_attempt await
send_transaction client_seq timestamp [] sent g = ok (none, g)
send_transaction client_seq timestamp (attempt ∷ attempts) sent g =
    elim (await timestamp attempt (start_attempt client_seq timestamp g)) [
      | ok (d, g') ↦ elim d [
        | some b ↦ ok (some (b, sent + 1), g')
        | none ↦ send_transaction client_seq timestamp attempts (sent + 1) g'
      ]
      | err text ↦ err text
      | panic ↦ panic
    ]
