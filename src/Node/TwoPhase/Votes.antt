-- ===== src/Node/TwoPhase/Votes.antt =====
-- What the participant of a cross-shard transaction demands of the coordinator.
use pbft_2pc.Prelude.{
  ℕ, String, string_eq, true, ◌&&◌, some, List, [], ◌∷◌, select, length, leb, ◌==◌, Result, ok, ◌≡◌,
  ◌↔◌, refl, arith, Result-cases, inl, inr,
}
use pbft_2pc.Messages.{PcPrepareReq, Message, CommitRequest}
use pbft_2pc.Deps.{Bolt, Codec, Crypto, PublicKey}
use pbft_2pc.Cryptox.{verify_signature, md5_hash}
use pbft_2pc.Node.{Node}
use pbft_2pc.Node.Log.{get_public_key}
use pbft_2pc.Node.Certs.{is_signed_by}
use pbft_2pc.Node.TwoPhase.{is_pc_commit, validate_pcp_commits}

module _ ⦃bolt : Bolt⦄ ⦃codec : Codec⦄ ⦃crypto : Crypto⦄ where
  -- The commits of a request that a node of another cluster accepts for a digest.
  abbrev pub pc_votes : String → Node → List CommitRequest → ℕ
  pc_votes digest n commits = length (
      select
        (λ c.
          digest == c.commit.digest
          && is_signed_by c.commit.node_id (Message.commit c.commit) c.signature n)
        commits)

  select-is_pc_commit :
      (digest : String) (n : Node) (cs : List CommitRequest)
      → length (select (is_pc_commit digest n) cs) ≡ pc_votes digest n cs
  unfolding is_pc_commit
  select-is_pc_commit digest n [] = refl
  select-is_pc_commit digest n (c ∷ cs) = ground (arith, select-is_pc_commit digest n cs)

  -- A participant's test of a prepare request passes exactly if the client's signature is good under
  -- the client's key, the request has a digest, and three or more elements of the list of commits
  -- carry that digest and are signed by the nodes that they name.
  pub validate_pcp_commits_iff :
      (req : PcPrepareReq) (n : Node)
      → (validate_pcp_commits req n ≡ ok tt) ↔ (
          (key : PublicKey) × (digest : String) × (get_public_key "client" n ≡ ok key)
          × (verify_signature key
                (Message.client_request req.signed_client_req.client_request)
                req.signed_client_req.signature
              ≡ ok tt)
          × (md5_hash (some req.signed_client_req) ≡ ok digest)
          × (leb 3 (pc_votes digest n req.commits) ≡ true))
  unfolding validate_pcp_commits
  validate_pcp_commits_iff req n = (
    λ passed.
        (let checks : PublicKey → Result (Unit {0}) = λ key.
            verify_signature key (Message.client_request req.signed_client_req.client_request)
              req.signed_client_req.signature in
          elim (Result-cases (get_public_key "client" n)) [
            | inl (key, known) ↦ elim (Result-cases (checks key)) [
              | inl (_, signed) ↦ elim (Result-cases (md5_hash (some req.signed_client_req))) [
                | inl (digest, hashed) ↦ (
                  key,
                  digest,
                  known,
                  signed,
                  hashed,
                  ground (arith, known, signed, hashed, select-is_pc_commit digest n req.commits),
                )
                | inr bad ↦ absurd (ground (arith, known, signed))
              ]
              | inr bad ↦ absurd (ground (arith, known))
            ]
            | inr bad ↦ absurd (ground arith)
          ]),
    λ (key, digest, known, signed, hashed, many).
        ground (arith, known, signed, hashed, many, select-is_pc_commit digest n req.commits),
  )
