-- ===== src/Worker/Executor/Refines.antt =====
-- What the executor of pepeuch_worker/executor.py promises, as an abstract description: no loop, no
-- hasher, one digest of the whole input.
use pepeuchiacluster.Prelude.{
  ℕ, zero, suc, ◌+◌, ◌≤◌, ◌≡◌, refl, ap, ◌∙◌, subst, true, String, same, same_iff, List, [], ◌∷◌,
  Option, none, some, arith, length, inl, inr, leb, ◌⊎◌, take, drop,
}
use pepeuchiacluster.Contracts.{ok, require, ok-injective, required, branch-eq-ok, >>=-eq-ok}
use pepeuchiacluster.Contracts.Values.{Value, Members, array, nil, at}
use pepeuchiacluster.Contracts.Lifecycle.{completed, interrupted, cancelled}
use pepeuchiacluster.Contracts.Outcomes.{ExecutionResult}
use pepeuchiacluster.Capabilities.{cpu_digest}
use pepeuchiacluster.Worker.Requests.{validate_request, is_empty_list}
use pepeuchiacluster.Worker.Executor.{
  Machinery, Limits, Work, report, rounds, look, piece, go_on, Progress, hashed, halted,
  hash_pieces, document_of, content_of, output_of, last_look, publish_content, after_pieces,
  run_mode, read_work, execute,
}
use pepeuchiacluster.Worker.Executor.Pieces.{
  joined, pieces, joined-all_pieces, updated, Clear, hash_pieces-hashed, hash_pieces-Clear,
}

-- `hashlib`: calls of `update` one after the other are one with the bytes joined
abbrev pub HashesJoined : Machinery → Type 0
HashesJoined m = (ps : List (List ℕ)) → m.hexdigest (updated m m.fresh ps) ≡ m.sha256 (joined ps)

module _ (m : Machinery) (l : Limits) where
  -- the report for some work, by the digest of the whole input
  abbrev pub digest_content : Work → List ℕ
  digest_content w =
      let raw = m.utf8 w.objective in content_of m l (document_of m l w (length raw) (m.sha256 raw))

  abbrev pub digest_output : Work → Value
  digest_output w = output_of m l w (digest_content w)

  -- A cancelled run gives nothing. An interrupted one has a look with its error, no later than the
  -- last. A completed one gives the output, and no look has had an error.
  pub data IsExecution (mode : String) (w : Work) : ExecutionResult → Type 0 where
    no_run : mode ≡ "cancel" → IsExecution mode w (report w cancelled [] none)
    cut_off :
        (code : String) (n : ℕ)
        → n ≤ rounds (m.utf8 w.objective)
        → look m l w.deadline n ≡ some code
        → IsExecution mode w (report w interrupted [] (some code))
    full_run :
        length (m.utf8 w.objective) ≤ l.input_bytes
        → Clear m l w.deadline (rounds (m.utf8 w.objective)) 0
        → look m l w.deadline (rounds (m.utf8 w.objective)) ≡ none
        → length (digest_content w) ≤ l.output_bytes
        → IsExecution mode w (report w completed (digest_output w ∷ []) none)

  go_on-halted :
      (o : Option String) (rest : Progress m l) (code : String)
      → go_on m l o rest ≡ halted code
      → (o ≡ some code) ⊎ (rest ≡ halted code)
  go_on-halted none rest code e = inr e
  go_on-halted (some found) rest code e = inl (ground arith)

  -- the loop stops at a look with an error
  hash_pieces-halted :
      (deadline : Value) (left n : ℕ) (raw : List ℕ) (h : m.Hasher) (code : String)
      → hash_pieces m l deadline left n raw h ≡ halted code
      → (k : ℕ) × (k ≤ n + left) × (look m l deadline k ≡ some code)
  unfolding hash_pieces
  hash_pieces-halted deadline zero n raw h code e = cc
  hash_pieces-halted deadline (suc left) n raw h code e =
      elim (go_on-halted (look m l deadline n) _ code e) [
        | inl found ↦ (n, omega arith, found)
        | inr rest ↦
            let (k, le, found) =
              hash_pieces-halted deadline left (suc n) (drop piece raw)
                (m.update h (take piece raw)) code rest in
            (k, omega arith, found)
      ]

  last_look-IsExecution :
      (mode : String) (w : Work)
      → length (m.utf8 w.objective) ≤ l.input_bytes
      → Clear m l w.deadline (rounds (m.utf8 w.objective)) 0
      → length (digest_content w) ≤ l.output_bytes
      → (o : Option String) → look m l w.deadline (rounds (m.utf8 w.objective)) ≡ o
      → IsExecution mode w (last_look m l w (digest_output w) o)
  last_look-IsExecution mode w fits clear short none e = full_run fits clear e short
  last_look-IsExecution mode w fits clear short (some code) e =
      cut_off code (rounds (m.utf8 w.objective)) (omega arith) e

  publish_content-ok :
      (w : Work) (n : ℕ) (content : List ℕ) (r : ExecutionResult)
      → publish_content m l w n content ≡ ok r
      → (leb (length content) l.output_bytes ≡ true)
        × (last_look m l w (output_of m l w content) (look m l w.deadline n) ≡ r)
  unfolding publish_content
  publish_content-ok w n content r e = required (leb (length content) l.output_bytes) _ _ r e

  -- the work whose input and content are within the limits, and that no look cuts off
  pub record IsUncut (w : Work) : Type 0 where
    pub input_fits : length (m.utf8 w.objective) ≤ l.input_bytes
    pub clear : Clear m l w.deadline (rounds (m.utf8 w.objective)) 0
    pub clear_last : look m l w.deadline (rounds (m.utf8 w.objective)) ≡ none
    pub output_fits : length (digest_content w) ≤ l.output_bytes

  module _ (law : HashesJoined m) where
    after_pieces-IsExecution :
        (mode : String) (w : Work) (p : Progress m l) (r : ExecutionResult)
        → length (m.utf8 w.objective) ≤ l.input_bytes
        → hash_pieces m l w.deadline (rounds (m.utf8 w.objective)) 0 (m.utf8 w.objective) m.fresh
          ≡ p
        → after_pieces m l w (m.utf8 w.objective) p ≡ ok r
        → IsExecution mode w r
    unfolding after_pieces publish_content
    after_pieces-IsExecution mode w (halted code) r fits run e =
        let (k, le, found) =
          hash_pieces-halted w.deadline (rounds (m.utf8 w.objective)) 0 _ _ code run in
        subst (IsExecution mode w) (ok-injective _ r e) (cut_off code k (omega arith) found)
    after_pieces-IsExecution mode w (hashed h) r fits run e =
        let raw = m.utf8 w.objective in
        let (same_, clear) = hash_pieces-hashed m l w.deadline (rounds raw) 0 raw m.fresh h run in
        let digest : m.hexdigest h ≡ m.sha256 raw =
          ap m.hexdigest same_
          ∙ law (pieces (rounds raw) raw)
          ∙ ap m.sha256 (joined-all_pieces raw) in
        let (_, last) = publish_content-ok w (rounds raw) _ r (
          subst
            (λ d.
              publish_content m l w (rounds raw) (content_of m l (document_of m l w (length raw) d))
              ≡ ok r)
            digest e) in
        subst (IsExecution mode w) last (
          last_look-IsExecution mode w fits clear (ground arith) (look m l w.deadline (rounds raw))
            refl)

    run_mode-IsExecution :
        (mode : String) (w : Work) (r : ExecutionResult)
        → run_mode m l mode w ≡ ok r
        → IsExecution mode w r
    unfolding run_mode
    run_mode-IsExecution mode w r e = elim (branch-eq-ok (same mode "cancel") _ _ r e) [
      | inl (cancel, e1) ↦
          subst (IsExecution mode w) (ok-injective _ r e1)
            (no_run ((same_iff mode "cancel").0 cancel))
      | inr (_, e1) ↦ elim (branch-eq-ok (same mode "success") _ _ r e1) [
        | inl (_, e2) ↦
            let raw = m.utf8 w.objective in
            elim (branch-eq-ok (leb (length raw) l.input_bytes) _ _ r e2) [
              | inl (fits, e3) ↦ after_pieces-IsExecution mode w _ r (ground arith) refl e3
              | inr (_, e3) ↦ cc
            ]
        | inr (_, e2) ↦ cc
      ]
    ]

    pub execute-IsExecution :
        (mode : String) (request : Value) (r : ExecutionResult)
        → execute m l mode request ≡ ok r
        → (members : Members) × (w : Work) × (validate_request m.instants (cpu_digest ∷ []) request
            ≡ ok members)
          × (read_work members ≡ ok w)
          × IsExecution mode w r
    unfolding execute
    execute-IsExecution mode request r e =
        let (members, valid, e1) =
          >>=-eq-ok (validate_request m.instants (cpu_digest ∷ []) request) _ e in
        let (files, _, e2) = >>=-eq-ok (at "authorized_files" members) _ e1 in
        let (_, _, e3) = >>=-eq-ok (require (is_empty_list files) "unsupported_cpu_inputs") _ e2 in
        let (w, read_, e4) = >>=-eq-ok (read_work members) _ e3 in
        (members, w, valid, read_, run_mode-IsExecution mode w r e4)

    run_mode-full_run :
        (w : Work)
        → IsUncut w
        → run_mode m l "success" w ≡ ok (report w completed (digest_output w ∷ []) none)
    unfolding run_mode after_pieces publish_content
    run_mode-full_run w uncut =
        let raw = m.utf8 w.objective in
        let input : leb (length raw) l.input_bytes ≡ true = ground (arith, uncut.input_fits) in
        let digest : m.hexdigest (updated m m.fresh (pieces (rounds raw) raw)) ≡ m.sha256 raw =
          law (pieces (rounds raw) raw) ∙ ap m.sha256 (joined-all_pieces raw) in
        let output : leb (length (digest_content w)) l.output_bytes ≡ true =
          ground (arith, uncut.output_fits) in
        rw input (
          rw (hash_pieces-Clear m l w.deadline (rounds raw) 0 raw m.fresh uncut.clear)
            (rw digest (rw output (rw uncut.clear_last refl))))

    -- The request is of work that no look cuts off.
    pub execute-full_run :
        (request : Value) (members : Members) (w : Work)
        → validate_request m.instants (cpu_digest ∷ []) request ≡ ok members
        → at "authorized_files" members ≡ ok (array nil)
        → read_work members ≡ ok w
        → IsUncut w
        → execute m l "success" request ≡ ok (report w completed (digest_output w ∷ []) none)
    unfolding execute
    execute-full_run request members w valid files read_ uncut =
        rw valid (rw files (rw read_ (run_mode-full_run w uncut)))
