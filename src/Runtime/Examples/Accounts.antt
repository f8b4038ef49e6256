-- ===== src/Runtime/Examples/Accounts.antt =====
-- Concrete runs of the coordinator's accounts.
use batch_weaver.Base.{ℕ, ◌≡◌, refl, [], ◌∷◌, none, some, bytes_eq, arith}
use batch_weaver.Runtime.Policy.{FlushReason}
use batch_weaver.Runtime.State.{Partition, Inflight, find_partition, failed}
use batch_weaver.Runtime.Cancel.{cancel_in_batches}
use batch_weaver.Runtime.Select.{item_too_large}
use batch_weaver.Runtime.Dispatch.{dispatch_batch, limits}
use batch_weaver.Runtime.Complete.{conclude}
use batch_weaver.Runtime.Leaks.{
  shared_batch, deserted_batch, IsOversize, waiters-conclude, cancel_in_batches_shared,
  dispatch_batch-IsOversize,
}
use batch_weaver.Runtime.Examples.{waiter, item, busy, batch, partition}

found_partition : find_partition (7 ∷ []) busy.partitions ≡ some partition
unfolding find_partition bytes_eq
found_partition = refl

waiters-conclude_example :
    find_partition (7 ∷ []) (conclude batch (failed 3) busy).partitions
    ≡ some (record partition { live = 1 })
waiters-conclude_example = waiters-conclude batch (failed 3) busy found_partition (omega arith)

cancel_in_batches_shared_example :
    (b' : Inflight ℕ) × (cancel_in_batches
        (7 ∷ [])
        1
        (shared_batch batch (item 1 6) (waiter 1) (waiter 2) ∷ [])
      ≡ some (b' ∷ [], none))
    × (cancel_in_batches (7 ∷ []) 2 (b' ∷ [])
        ≡ some (deserted_batch batch (item 1 6) (waiter 1) (waiter 2) ∷ [], none))
cancel_in_batches_shared_example =
    cancel_in_batches_shared batch (item 1 6) (waiter 1) (waiter 2) [] refl refl (omega arith)

abbrev clogged : Partition ℕ
clogged = record partition { pending = item 4 11 ∷ []; bytes = 11 }

clogged-IsOversize : IsOversize (limits busy) clogged.pending
unfolding IsOversize item_too_large
clogged-IsOversize = ((omega arith, refl), tt)

dispatch_batch-IsOversize_example :
    let q = (dispatch_batch clogged FlushReason.wait busy).0 in
    (q.pending ≡ []) × (q.bytes ≡ 11) × (q.weight ≡ 1)
dispatch_batch-IsOversize_example =
    dispatch_batch-IsOversize clogged FlushReason.wait busy clogged-IsOversize
