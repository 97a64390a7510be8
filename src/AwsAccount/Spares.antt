-- ===== src/AwsAccount/Spares.antt =====
-- `run` as a whole, against what AWS says of the account.
use delorean.Base.{
  Option-cases, All-map, subst, List, [], Bool, false, none, some, ◌≡◌, ◌≢◌, refl, sym, ap, ◌∙◌,
  inl, inr, Text, get, In, All,
}
use delorean.AwsAccount.Fetch.{
  tag_of, IsRunning, IsFetched, fetch_reservations_there, fetch_reservations-IsBare,
  fetch_vpcs-IsFetched, fetch_buckets-IsFetched,
}
use delorean.AwsAccount.{
  Option, Vpc, Bucket, Tags, Services, Instance, Cleanup, Call, clean_cluster, remove_objects,
  remove_bucket, remove_vpc, init, extract_cluster_tag, fetch_reservations, fetch_vpcs,
  fetch_buckets, run,
}
use delorean.AwsAccount.Safety.{HasUnusedBucket, Justified, clean-Justified}

-- The call is not against a cluster with the tag `t`: a bucket or VPC that is removed has another tag.
abbrev pub Spares : Text → List Vpc → List Bucket → Call → Type 0
Spares t vs bs (clean_cluster tag) = tag ≢ t
Spares t vs bs (remove_objects name) =
    (b : Bucket) × (tags : Tags) × In b bs
    × (b.name ≡ name)
    × (b.tagging ≡ some tags)
    × (tag_of tags ≢ t)
Spares t vs bs (remove_bucket name) =
    (b : Bucket) × (tags : Tags) × In b bs
    × (b.name ≡ name)
    × (b.tagging ≡ some tags)
    × (tag_of tags ≢ t)
Spares t vs bs (remove_vpc id) =
    (v : Vpc) × In v vs × (v.vpc_id ≡ id) × (v.is_default ≡ false) × (tag_of v.tag_set ≢ t)

module _ (t : Text) (tagged : t ≢ []) (vs : List Vpc) (bs : List Bucket) (s : Cleanup)
    (f : IsFetched s.osd_resources vs bs s) (used : get t s.osd_resources ≢ none) where
  other_tag : (tag : Text) → get tag s.osd_resources ≡ none → tag ≢ t
  other_tag tag e q = used (subst (λ u. get u s.osd_resources ≡ none) q e)

  Spares-bucket :
      (name : Text)
      → HasUnusedBucket s.osd_resources s.s3_buckets s.vpcs name
      → Spares t vs bs (remove_bucket name)
  Spares-bucket name (r, m, e, velero, (free, named)) =
      let (b, tags, n, same, read, tag) = f.from_bucket r m in
      (b, tags, n, same ∙ e, read, λ q. other_tag r.cluster_tag free (sym tag ∙ q))

  Justified-Spares : (c : Call) → Justified s.osd_resources s.s3_buckets s.vpcs c → Spares t vs bs c
  unfolding extract_cluster_tag
  Justified-Spares (clean_cluster tag) j = other_tag tag j
  Justified-Spares (remove_objects name) j = Spares-bucket name j
  Justified-Spares (remove_bucket name) j = Spares-bucket name j
  Justified-Spares (remove_vpc id) (r, m, e, inl (free, named)) =
      let (v, n, same, custom, tags, tag) = f.from_vpc r m in
      (v, n, same ∙ e, custom, λ q. other_tag r.cluster_tag free (sym tag ∙ q))
  Justified-Spares (remove_vpc id) (r, m, e, inr bare) =
      let (v, n, same, custom, tags, tag) = f.from_vpc r m in
      (v, n, same ∙ e, custom, λ q. tagged (sym q ∙ ap tag_of (tags ∙ bare)))

-- The instance may be there as far as the listing of the instances says: it is in the listing, or this fails.
abbrev pub MayBeThere : Instance → Option (List (List Instance)) → Type 0
MayBeThere i none = Unit
MayBeThere i (some rs) = (is : List Instance) × In is rs × In i is

-- All three listings have succeeded, and the call is not against a cluster with the tag `t`.
abbrev pub SparesListed : Services → Text → Call → Type 0
SparesListed aws t c =
    (aws.reservations ≢ none)
    × ((vs : List Vpc) × (bs : List Bucket) × (aws.vpcs ≡ some vs)
        × (aws.buckets ≡ some bs)
        × Spares t vs bs c)

module _ (aws : Services) (dry_run : Bool) (region : Text) (rs : List (List Instance))
    (er : aws.reservations ≡ some rs) where
  -- Nothing is called if a listing fails.
  fetched_no_calls : (fetch_reservations rs init).calls ≡ []
  fetched_no_calls =
      (fetch_reservations-IsBare rs init
        (record { no_calls = refl; no_vpcs = refl; no_buckets = refl })).no_calls

  listed-Spares :
      (vs : List Vpc) (bs : List Bucket) (is : List Instance) (i : Instance)
      → aws.vpcs ≡ some vs
      → aws.buckets ≡ some bs
      → In is rs
      → In i is
      → IsRunning i
      → All (Spares (tag_of i.tag_set) vs bs) (run aws dry_run region).0.calls
  unfolding run
  listed-Spares vs bs is i ev eb m n running =
      let s0 = fetch_reservations rs init in
      let bare =
        fetch_reservations-IsBare rs init
          (record { no_calls = refl; no_vpcs = refl; no_buckets = refl }) in
      let used = fetch_reservations_there i is rs init m n running in
      let f0 : IsFetched s0.osd_resources vs bs s0 = record {
        same_use = refl;
        no_calls = bare.no_calls;
        from_vpc = λ r k. absurd (subst (In r) bare.no_vpcs k);
        from_bucket = λ r k. absurd (subst (In r) bare.no_buckets k);
      } in
      let f1 = fetch_vpcs-IsFetched s0.osd_resources vs bs vs s0 (λ v k. k) f0 in
      let s2 = fetch_buckets region bs (fetch_vpcs vs s0) in
      let f2 = fetch_buckets-IsFetched s0.osd_resources vs bs region bs _ (λ b k. k) f1 in
      let f3 : IsFetched s2.osd_resources vs bs s2 = record {
        same_use = refl;
        no_calls = f2.no_calls;
        from_vpc = f2.from_vpc;
        from_bucket = f2.from_bucket;
      } in
      rw (er, ev, eb, run)
        (All-map _ (Justified-Spares (tag_of i.tag_set) running.1 vs bs s2 f3 (rw f2.same_use used))
          (clean-Justified aws dry_run s2 f2.no_calls))

  no_vpcs-calls : aws.vpcs ≡ none → (run aws dry_run region).0.calls ≡ []
  unfolding run
  no_vpcs-calls ev = rw (er, ev, run) fetched_no_calls

  no_buckets-calls :
      (vs : List Vpc)
      → aws.vpcs ≡ some vs
      → aws.buckets ≡ none
      → (run aws dry_run region).0.calls ≡ []
  unfolding run
  no_buckets-calls vs ev eb =
      rw (er, ev, eb, run)
        ((fetch_vpcs-IsFetched (fetch_reservations rs init).osd_resources vs [] vs
          (fetch_reservations rs init) (λ v k. k)
          (record {
            same_use = refl;
            no_calls = fetched_no_calls;
            from_vpc = λ r k. absurd (
                subst (In r)
                  (fetch_reservations-IsBare rs init
                    (record { no_calls = refl; no_vpcs = refl; no_buckets = refl })).no_vpcs
                  k);
            from_bucket = λ r k. absurd (
                subst (In r)
                  (fetch_reservations-IsBare rs init
                    (record { no_calls = refl; no_vpcs = refl; no_buckets = refl })).no_buckets
                  k);
          })).no_calls)

none_called : (P : Call → Type 0) (calls : List Call) → calls ≡ [] → All P calls
none_called P calls e = subst (All P) (sym e) tt

no_reservations-calls :
    (aws : Services) (dry_run : Bool) (region : Text)
    → aws.reservations ≡ none
    → (run aws dry_run region).0.calls ≡ []
unfolding run
no_reservations-calls aws dry_run region er = rw (er, run) refl

-- Whatever AWS answers, and for each instance that is not terminated, has a cluster's tag and is listed or may be
-- there because the listing of the instances has failed: `run` calls nothing unless all three listings have succeeded,
-- and no call is against the instance's cluster: its tag is not given to the cluster service, and each bucket and VPC
-- that is removed is listed and carries another tag.
pub run-Spares :
    (aws : Services) (dry_run : Bool) (region : Text) (i : Instance)
    → MayBeThere i aws.reservations
    → IsRunning i
    → All (SparesListed aws (tag_of i.tag_set)) (run aws dry_run region).0.calls
run-Spares aws dry_run region i there running = elim (Option-cases aws.reservations) [
  | inl er ↦ none_called _ _ (no_reservations-calls aws dry_run region er)
  | inr (rs, er) ↦ elim (Option-cases aws.vpcs) [
    | inl ev ↦ none_called _ _ (no_vpcs-calls aws dry_run region rs er ev)
    | inr (vs, ev) ↦ elim (Option-cases aws.buckets) [
      | inl eb ↦ none_called _ _ (no_buckets-calls aws dry_run region rs er vs ev eb)
      | inr (bs, eb) ↦
          let (is, m, n) = subst (MayBeThere i) er there in
          All-map _ (λ c h. (λ e. cc (sym er ∙ e), (vs, bs, ev, eb, h)))
            (listed-Spares aws dry_run region rs er vs bs is i ev eb m n running)
    ]
  ]
]
