-- ===== src/Kafka/OffsetManager/Committed.antt =====
-- What commitOffset of infra/kafka/OffsetManager.cpp sends is what committedOffset fetches.
use smyte_db.Prelude.{
  ℕ, List, ◌≡◌, refl, sym, ◌∙◌, Bool, true, false, Option, none, some, if◌then◌else◌,
}
use smyte_db.Prelude.Int.{ℤ, pos}
use smyte_db.Kafka.OffsetManager.{
  Rdkafka, TopicPartition, offset_of, read_offset, committed_offset, commit_list, commit_offset,
}

module _ (rdkafka : Rdkafka) (topic : List ℕ) (partition : ℤ) where
  open rdkafka use {
    Cluster, TopicPartitions, set_offset, find, commit, committed, find-set_offset,
    committed-commit,
  }

  abbrev from_found : TopicPartitions → Option (Option ℤ) → Option (Option ℤ × TopicPartitions)
  from_found list o = elim o [ none ↦ none | some offset ↦ some (offset, list) ]

  unfailed-some :
      (failed : Bool) (offset : ℤ) (list l : TopicPartitions) (x : ℤ)
      → from_found list (some (if failed then none else some offset)) ≡ some (some x, l)
      → (failed ≡ false) × (offset ≡ x)
  unfailed-some true offset list l x h = absurd (cc)
  unfailed-some false offset list l x h = (refl, cc)

  -- An offset that was fetched stands in the list, without an error.
  found-some :
      (o : Option TopicPartition) (list l : TopicPartitions) (x : ℤ)
      → from_found list (offset_of rdkafka topic partition o) ≡ some (some x, l)
      → (q : TopicPartition) × (o ≡ some q) × (q.failed ≡ false) × (q.offset ≡ x)
  found-some none list l x h = absurd (cc)
  found-some (some q) list l x h =
      let (unfailed, is_x) = unfailed-some q.failed q.offset list l x h in (q, refl, unfailed, is_x)

  read_offset-some :
      (r : Bool × TopicPartitions) (l : TopicPartitions) (x : ℤ)
      → read_offset rdkafka topic partition r ≡ some (some x, l)
      → (r.0 ≡ true)
        × (q : TopicPartition) × (find topic partition r.1 ≡ some q)
        × (q.failed ≡ false)
        × (q.offset ≡ x)
  read_offset-some (false, list) l x h = absurd (cc)
  read_offset-some (true, list) l x h =
      let (q, found, unfailed, is_x) = found-some (find topic partition list) list l x h in
      (refl, q, found, unfailed, is_x)

  commit_list-read :
      (timeout_ms offset : ℕ) (cluster : Cluster) (r : Bool × TopicPartitions) (l : TopicPartitions)
      (x : ℤ)
      → (r.0 ≡ true
          → (p : TopicPartition) × (find topic partition r.1 ≡ some p) × (p.offset ≡ pos offset))
      → (commit_list rdkafka topic partition false cluster r).0 ≡ true
      → read_offset rdkafka topic partition (
          let (ok, cluster', list) = commit_list rdkafka topic partition false cluster r in
          committed timeout_ms cluster' list)
        ≡ some (some x, l)
      → x ≡ pos offset
  commit_list-read timeout_ms offset cluster (false, list) l x sets accepted read = absurd (cc)
  commit_list-read timeout_ms offset cluster (true, list) l x sets accepted read =
      let (p, stands, at) = sets refl in
      let (success, q, found, unfailed, is_x) =
        read_offset-some (committed timeout_ms (commit false list cluster).1 list) l x read in
      sym is_x
      ∙ committed-commit timeout_ms topic partition offset list cluster p q accepted stands at
          success found unfailed

  -- If a blocking commitOffset reports success, an offset that committedOffset then fetches is the one that was
  -- committed.
  pub committed_offset-commit_offset :
      (timeout_ms offset : ℕ) (cluster : Cluster) (list l : TopicPartitions) (x : ℤ)
      → (commit_offset rdkafka topic partition (pos offset) false cluster list).0 ≡ true
      → (let (ok, cluster', list') =
            commit_offset rdkafka topic partition (pos offset) false cluster list in
          committed_offset rdkafka topic partition timeout_ms cluster' list')
        ≡ some (some x, l)
      → x ≡ pos offset
  unfolding commit_offset committed_offset
  committed_offset-commit_offset timeout_ms offset cluster list l x =
      commit_list-read timeout_ms offset cluster (set_offset topic partition (pos offset) list) l x
        (find-set_offset topic partition (pos offset) list)
