-- ===== src/Guard/Run/Writes.antt =====
-- Histories of `class MinaGuard`: the entry of the approval map that a call writes, and the entry of
-- the nullifier map that it marks.
use mina_guard.Base.{Option, none, some}
use mina_guard.Platform.{Field, PublicKey, Platform, fadd}
use mina_guard.Platform.Laws.{update}
use mina_guard.Constants.{executed_marker}
use mina_guard.Hashes.{vote_nullifier_key}
use mina_guard.Proposal.{proposal_hash}
use mina_guard.Guard.Run.{
  Call, propose_call, approve_call, transfer_call, allocate_call, delegate_call, owner_change_call,
  threshold_change_call,
}

module _ ⦃o : Platform⦄ where
  -- The hash and the value that are written.
  abbrev pub call_write : Call → Option (Field × Field)
  call_write (propose_call p ow v sig vw aw) = some (proposal_hash p, fadd 1 1)
  call_write (approve_call p sig v ow aw n vw) = some (proposal_hash p, fadd n 1)
  call_write (transfer_call p w n) = some (proposal_hash p, executed_marker)
  call_write (allocate_call p w n) = some (proposal_hash p, executed_marker)
  call_write (delegate_call p w n) = some (proposal_hash p, executed_marker)
  call_write (owner_change_call p w n ow after) = some (proposal_hash p, executed_marker)
  call_write (threshold_change_call p w n t) = some (proposal_hash p, executed_marker)
  call_write _ = none

  -- The hash and the voter of the vote that is marked.
  abbrev pub call_vote : Call → Option (Field × PublicKey)
  call_vote (propose_call p ow v sig vw aw) = some (proposal_hash p, v)
  call_vote (approve_call p sig v ow aw n vw) = some (proposal_hash p, v)
  call_vote _ = none

  abbrev pub after_write : Option (Field × Field) → (Field → Field) → Field → Field
  after_write none f = f
  after_write (some (hash, value)) f = update f hash value

  abbrev pub after_vote : Option (Field × PublicKey) → (Field → Field) → Field → Field
  after_vote none g = g
  after_vote (some (hash, voter)) g = update g (vote_nullifier_key hash voter) 1
