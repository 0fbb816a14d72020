-- ===== src/Node/Checkpoints/Forgery.antt =====
-- What messages of the handler Checkpoint can and cannot make stable.
use pbft_2pc.Prelude.{
  ap, ◌∙◌, string_eq, nat_eq, Int64, true, false, Option, none, some, List, [], ◌∷◌, ◌++◌, ◌+◌, ◌*◌,
  length, assign, ◌==◌, lt64, add64, Result, ok, ◌≡◌, refl, arith,
}
use pbft_2pc.Messages.{SignedCheckpointRequest, Message}
use pbft_2pc.Config.{f}
use pbft_2pc.Deps.{Bolt, Crypto, PublicKey}
use pbft_2pc.Cryptox.{verify_signature}
use pbft_2pc.Node.{Node, CheckpointData, Effect, emit}
use pbft_2pc.Node.Log.{get_public_key}
use pbft_2pc.Node.Checkpoints.{
  add_cert, make_stable, add_checkpoint, validate_checkpoint, checkpoint,
}

module _ ⦃bolt : Bolt⦄ ⦃crypto : Crypto⦄ where
  -- The node after some messages in order; `none` where one waits for a mutex for ever.
  abbrev pub receive : List SignedCheckpointRequest → Node → Option Node
  receive [] n = some n
  receive (req ∷ reqs) n = elim (checkpoint req n) [ none ↦ none | some (r, n') ↦ receive reqs n' ]

  -- A live node that has the key under which a message is signed.
  abbrev pub Accepts : SignedCheckpointRequest → PublicKey → Node → Type 0
  Accepts req key n =
      (n.live ≡ true)
      × (n.checkpoint_certs_locked ≡ false)
      × (n.public_key_map req.checkpoint.node_id ≡ some key)
      × (verify_signature key (Message.checkpoint req.checkpoint) req.signature ≡ ok tt)

  checkpoint-Accepts :
      (req : SignedCheckpointRequest) (key : PublicKey) (n : Node)
      → Accepts req key n
      → checkpoint req n
        ≡ some (ok tt, add_checkpoint req (n.checkpoint_certs req.checkpoint.sequence) n)
  unfolding checkpoint validate_checkpoint get_public_key
  checkpoint-Accepts req key n (live, free, known, good) =
      rw live (rw (known, validate_checkpoint) (rw (good, free) refl))

  -- What a node has for a number after `certs` of the messages were counted.
  abbrev counted : SignedCheckpointRequest → List SignedCheckpointRequest → CheckpointData
  counted req certs = record {
    stable = false;
    digest = "";
    balances = [];
    certs = certs;
    waiting = req ∷ [];
  }

  -- A node in the middle of the messages.
  abbrev Between :
      SignedCheckpointRequest → PublicKey → List SignedCheckpointRequest → Node → Node → Type 0
  Between req key certs n m =
      Accepts req key m
      × (m.checkpoint_certs req.checkpoint.sequence ≡ some (counted req certs))
      × (m.last_stable ≡ n.last_stable)
      × (m.outbox ≡ n.outbox)

  at_key :
      (req : SignedCheckpointRequest) (c : CheckpointData) (n : Node)
      → assign req.checkpoint.sequence (some c) n.checkpoint_certs req.checkpoint.sequence ≡ some c
  at_key req c n = ground arith

  first_message :
      (req : SignedCheckpointRequest) (key : PublicKey) (n : Node)
      → Accepts req key n
      → n.checkpoint_certs req.checkpoint.sequence ≡ none
      → (m : Node) × (checkpoint req n ≡ some (ok tt, m)) × Between req key [] n m
  unfolding add_checkpoint
  first_message req key n accepts fresh = (
    add_checkpoint req none n,
    checkpoint-Accepts req key n accepts ∙ rw fresh refl,
    (accepts, at_key req _ n, refl, refl),
  )

  next_message :
      (req : SignedCheckpointRequest) (key : PublicKey) (certs : List SignedCheckpointRequest)
      (n m : Node)
      → req.checkpoint.digest ≡ ""
      → (length (certs ++ req ∷ []) == 2 * f + 1) ≡ false
      → Between req key certs n m
      → (k : Node) × (checkpoint req m ≡ some (ok tt, k)) × Between req key (certs ++ req ∷ []) n k
  unfolding add_checkpoint add_cert
  next_message req key certs n m empty few (accepts, entry, same, quiet) =
      let c = counted req (certs ++ req ∷ []) in
      let same_digest : ("" == req.checkpoint.digest) ≡ true = rw empty refl in
      (
        record m { checkpoint_certs = assign req.checkpoint.sequence (some c) m.checkpoint_certs },
        checkpoint-Accepts req key m accepts ∙ rw entry (rw (same_digest, few) refl),
        (accepts, at_key req c m, same, quiet),
      )

  -- The checkpoint of a number is stable with the balances of an empty map, and the node starts to
  -- delete what it has for the numbers up to it.
  abbrev pub IsForged : Int64 → Node → Node → Type 0
  IsForged seq n n' =
      (n'.last_stable ≡ seq)
      × (n'.last_stable_balances ≡ [])
      × (n'.low_water ≡ add64 seq 1)
      × (n'.outbox ≡ n.outbox ++ Effect.go_collect_garbage seq ∷ [])

  last_message :
      (req : SignedCheckpointRequest) (key : PublicKey) (n m : Node)
      → req.checkpoint.digest ≡ ""
      → lt64 n.last_stable req.checkpoint.sequence ≡ true
      → Between req key (req ∷ req ∷ []) n m
      → (k : Node) × (checkpoint req m ≡ some (ok tt, k)) × IsForged req.checkpoint.sequence n k
  unfolding add_checkpoint add_cert make_stable emit
  last_message req key n m empty later (accepts, entry, same, quiet) =
      let c = counted req (req ∷ req ∷ []) in
      let forged = add_checkpoint req (some c) m in
      let same_digest : ("" == req.checkpoint.digest) ≡ true = rw empty refl in
      let newer : lt64 m.last_stable req.checkpoint.sequence ≡ true = rw same later in
      (
        forged,
        checkpoint-Accepts req key m accepts ∙ rw entry refl,
        rw (same_digest, newer)
            (
              refl,
              refl,
              refl,
              ap (λ o. o ++ Effect.go_collect_garbage req.checkpoint.sequence ∷ []) quiet,
            ),
      )

  receive_cons :
      (req : SignedCheckpointRequest) (reqs : List SignedCheckpointRequest) (r : Result (Unit {0}))
      (n m : Node)
      → checkpoint req n ≡ some (r, m)
      → receive (req ∷ reqs) n ≡ receive reqs m
  receive_cons req reqs r n m ran = rw (ran, receive) refl

  -- One server that signs a checkpoint message with an empty digest makes any number above the last
  -- stable one stable: a live node that has no data for the number and can take the mutex, and at which
  -- the signature of the message is good, receives the message four times. Then the number is its last
  -- stable checkpoint, with no balances, and it deletes its certificates and pre-prepares up to it.
  pub checkpoint-IsForged :
      (req : SignedCheckpointRequest) (key : PublicKey) (n : Node)
      → Accepts req key n
      → n.checkpoint_certs req.checkpoint.sequence ≡ none
      → req.checkpoint.digest ≡ ""
      → lt64 n.last_stable req.checkpoint.sequence ≡ true
      → (n' : Node) × (receive (req ∷ req ∷ req ∷ req ∷ []) n ≡ some n')
        × IsForged req.checkpoint.sequence n n'
  checkpoint-IsForged req key n accepts fresh empty later =
      let (n1, ran1, state1) = first_message req key n accepts fresh in
      let (n2, ran2, state2) = next_message req key [] n n1 empty refl state1 in
      let (n3, ran3, state3) = next_message req key (req ∷ []) n n2 empty refl state2 in
      let (n4, ran4, forged) = last_message req key n n3 empty later state3 in
      (
        n4,
        receive_cons req (req ∷ req ∷ req ∷ []) _ n n1 ran1
            ∙ receive_cons req (req ∷ req ∷ []) _ n1 n2 ran2
            ∙ receive_cons req (req ∷ []) _ n2 n3 ran3
            ∙ receive_cons req [] _ n3 n4 ran4,
        forged,
      )
