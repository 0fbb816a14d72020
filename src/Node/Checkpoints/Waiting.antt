-- ===== src/Node/Checkpoints/Waiting.antt =====
-- Checkpoint messages with a digest, and the data of the numbers that they are for.
use mathlib.Core.Path.{subst}
use mathlib.Core.Option.{some-injective}
use pbft_2pc.Prelude.{
  ap, sym, ◌∙◌, String, string_eq, nat_eq, Int64, Bool, if◌then◌else◌, true, false, not, Option,
  none, some, List, [], ◌>>=◌, ◌∷◌, assign, All, ◌==◌, Result, ok, err, panic, ◌≡◌, refl, inl, inr,
  eq_iff, Bool-cases, Option-cases, arith,
}
use pbft_2pc.Messages.{SignedCheckpointRequest, Message}
use pbft_2pc.Deps.{Bolt, Crypto}
use pbft_2pc.Cryptox.{verify_signature}
use pbft_2pc.Node.Log.{get_public_key}
use pbft_2pc.Node.{Node, CheckpointData}
use pbft_2pc.Node.Checkpoints.{add_checkpoint, validate_checkpoint, checkpoint}
use pbft_2pc.Node.Checkpoints.Forgery.{receive}

differs : (a b : String) → a ≡ "" → (b == "") ≡ false → (a == b) ≡ false
differs a b empty given = ground (arith, eq_iff a b, eq_iff b "", empty, given)

module _ ⦃bolt : Bolt⦄ where
  -- No data of a node has a digest.
  abbrev pub WithoutDigests : Node → Type 0
  WithoutDigests n =
      (i : Int64) (c : CheckpointData) → n.checkpoint_certs i ≡ some c → c.digest ≡ ""

  -- What stays as it is.
  abbrev pub Unmoved : Node → Node → Type 0
  Unmoved n n' =
      (n'.last_stable ≡ n.last_stable)
      × (n'.last_stable_balances ≡ n.last_stable_balances)
      × (n'.low_water ≡ n.low_water)
      × (n'.high_water ≡ n.high_water)
      × (n'.seq ≡ n.seq)
      × (n'.outbox ≡ n.outbox)

  Unmoved-trans : (n m k : Node) → Unmoved n m → Unmoved m k → Unmoved n k
  Unmoved-trans n m k (a, b, c, d, e, f) (a', b', c', d', e', f') =
      (a' ∙ a, b' ∙ b, c' ∙ c, d' ∙ d, e' ∙ e, f' ∙ f)

  assigned :
      (seq : Int64) (c : CheckpointData) (n : Node)
      → c.digest ≡ ""
      → WithoutDigests n
      → (i : Int64) (d : CheckpointData) → assign seq (some c) n.checkpoint_certs i ≡ some d
      → d.digest ≡ ""
  assigned seq c n empty before i d h = elim (Bool-cases (seq == i)) [
    | inl same ↦
        (let stored : c ≡ d = some-injective _ _ (rw same at h) in
          ap (λ (x : CheckpointData). x.digest) (sym stored) ∙ empty)
    | inr other ↦ before i d (rw other at h)
  ]

  add_checkpoint-WithoutDigests :
      (req : SignedCheckpointRequest) (o : Option CheckpointData) (n : Node)
      → (req.checkpoint.digest == "") ≡ false
      → o ≡ n.checkpoint_certs req.checkpoint.sequence
      → WithoutDigests n
      → WithoutDigests (add_checkpoint req o n) × Unmoved n (add_checkpoint req o n)
  unfolding add_checkpoint
  add_checkpoint-WithoutDigests req none n given at before = (
    λ i d h. assigned req.checkpoint.sequence _ n refl before i d h,
    (refl, refl, refl, refl, refl, refl),
  )
  add_checkpoint-WithoutDigests req (some c) n given at before =
      let empty = before req.checkpoint.sequence c (sym at) in
      let differ : (c.digest == req.checkpoint.digest) ≡ false =
        differs c.digest req.checkpoint.digest empty given in
      let blank : (c.digest == "") ≡ true = rw empty refl in
      rw (differ, blank)
        (
          λ i d h. assigned req.checkpoint.sequence _ n empty before i d h,
          (refl, refl, refl, refl, refl, refl),
        )

module _ ⦃bolt : Bolt⦄ ⦃crypto : Crypto⦄ where
  -- Is a checkpoint message signed by the node that it names?
  abbrev signature_checked : SignedCheckpointRequest → Node → Result (Unit {0})
  signature_checked req n = do
    key ← get_public_key req.checkpoint.node_id n
    verify_signature key (Message.checkpoint req.checkpoint) req.signature

  ended :
      {A : Type 0} (n k n' : Node) (a r : A)
      → WithoutDigests k × Unmoved n k
      → ◌≡◌ {A = Option (A × Node)} (some (a, k)) (some (r, n'))
      → WithoutDigests n' × Unmoved n n'
  ended n k n' a r kept h =
      subst (λ m. WithoutDigests m × Unmoved n m) (ap (λ p. p.1) (some-injective _ _ h)) kept

  by_check :
      (checked : Result (Unit {0})) (locked : Bool) (n k n' : Node) (r : Result (Unit {0}))
      → WithoutDigests n
      → WithoutDigests k × Unmoved n k
      → ◌≡◌ {A = Option (Result (Unit {0}) × Node)}
          (elim checked [
            | ok done ↦ if locked then none else some (ok tt, k)
            | err text ↦ some (err text, n)
            | panic ↦ some (panic, n)
          ])
          (some (r, n'))
      → WithoutDigests n' × Unmoved n n'
  by_check (ok done) true n k n' r before kept h = absurd (cc)
  by_check (ok done) false n k n' r before kept h = ended n k n' (ok tt) r kept h
  by_check (err text) locked n k n' r before kept h =
      ended n n n' (err text) r (before, (refl, refl, refl, refl, refl, refl)) h
  by_check panic locked n k n' r before kept h =
      ended n n n' panic r (before, (refl, refl, refl, refl, refl, refl)) h

  by_live :
      (live : Bool) (rest : Option (Result (Unit {0}) × Node)) (n n' : Node) (r : Result (Unit {0}))
      → WithoutDigests n
      → (rest ≡ some (r, n') → WithoutDigests n' × Unmoved n n')
      → (if not live then some (err "not live", n) else rest) ≡ some (r, n')
      → WithoutDigests n' × Unmoved n n'
  by_live true rest n n' r before checked h = checked h
  by_live false rest n n' r before checked h =
      ended n n n' (err "not live") r (before, (refl, refl, refl, refl, refl, refl)) h

  checkpoint-WithoutDigests :
      (req : SignedCheckpointRequest) (n n' : Node) (r : Result (Unit {0}))
      → (req.checkpoint.digest == "") ≡ false
      → WithoutDigests n
      → checkpoint req n ≡ some (r, n')
      → WithoutDigests n' × Unmoved n n'
  unfolding checkpoint validate_checkpoint
  checkpoint-WithoutDigests req n n' r given before h =
      by_live n.live (validate_checkpoint req n) n n' r before
        (by_check (signature_checked req n) n.checkpoint_certs_locked n
          (add_checkpoint req (n.checkpoint_certs req.checkpoint.sequence) n) n' r before
          (add_checkpoint-WithoutDigests req (n.checkpoint_certs req.checkpoint.sequence) n given
            refl before))
        h

  -- Checkpoint messages that have a digest change no stable checkpoint: a node that has no digest for any
  -- number, as at its start, takes any such messages, from any nodes, and if it answers them all then
  -- its last stable checkpoint with its balances, its water marks and its next sequence number are what
  -- they were, it has started and sent nothing, and it still has no digest for any number.
  pub receive-WithoutDigests :
      (reqs : List SignedCheckpointRequest) (n n' : Node)
      → All (λ q. (q.checkpoint.digest == "") ≡ false) reqs
      → WithoutDigests n
      → receive reqs n ≡ some n'
      → WithoutDigests n' × Unmoved n n'
  receive-WithoutDigests [] n n' given before h =
      subst (λ m. WithoutDigests m × Unmoved n m) (some-injective _ _ h)
        (before, (refl, refl, refl, refl, refl, refl))
  receive-WithoutDigests (q ∷ reqs) n n' (here, later) before h =
      elim (Option-cases (checkpoint q n)) [
        | inl waits ↦ (let h' = rw (waits, receive) at h in absurd (cc))
        | inr ((r, m), ran) ↦
            (let (kept, same) = checkpoint-WithoutDigests q n m r here before ran in
              let (kept', same') =
                receive-WithoutDigests reqs m n' later kept (rw (ran, receive) at h) in
              (kept', Unmoved-trans n m n' same same'))
      ]
