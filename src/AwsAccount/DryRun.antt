-- ===== src/AwsAccount/DryRun.antt =====
-- A dry run removes nothing.
use delorean.Base.{
  Option-cases, List, [], ◌∷◌, true, Option, none, some, ◌≡◌, refl, inl, inr, Text, get, Map, arith,
}
use delorean.AwsAccount.{
  fetch_bucket, fetch_vpc, Vpc, Bucket, Services, Resource, Instance, Cleanup, init, fetch_instance,
  fetch_instances, fetch_reservations, fetch_vpcs, fetch_buckets, clean_rhmi, clean_bucket,
  clean_buckets, clean_vpc, clean_vpcs, clean, run,
}

-- What a dry run leaves alone.
record IsUntouched (s : Cleanup) : Type 0 where
  no_calls : s.calls ≡ []
  none_deleted : s.deleted_resources ≡ []

module _ (aws : Services) where
  clean_rhmi-IsUntouched :
      (m : Map (List Resource)) (s : Cleanup)
      → IsUntouched s
      → IsUntouched (clean_rhmi aws true m s).0
  unfolding clean_rhmi
  clean_rhmi-IsUntouched [] s h = h
  clean_rhmi-IsUntouched ((tag, rs) ∷ rest) s h = elim (Option-cases (get tag s.osd_resources)) [
    | inl e ↦ rw (e, clean_rhmi) (clean_rhmi-IsUntouched rest s h)
    | inr (old, e) ↦
        rw (e, clean_rhmi)
          (clean_rhmi-IsUntouched rest _
            (record { no_calls = h.no_calls; none_deleted = h.none_deleted }))
  ]

  clean_bucket-IsUntouched :
      (b : Resource) (s : Cleanup) → IsUntouched s → IsUntouched (clean_bucket aws true b s)
  unfolding clean_bucket
  clean_bucket-IsUntouched b s h = ground arith

  clean_buckets-IsUntouched :
      (bs : List Resource) (s : Cleanup) → IsUntouched s → IsUntouched (clean_buckets aws true bs s)
  unfolding clean_buckets
  clean_buckets-IsUntouched [] s h = h
  clean_buckets-IsUntouched (b ∷ bs) s h =
      clean_buckets-IsUntouched bs _ (clean_bucket-IsUntouched b s h)

  clean_vpc-IsUntouched :
      (v : Resource) (s : Cleanup) → IsUntouched s → IsUntouched (clean_vpc aws true v s)
  unfolding clean_vpc
  clean_vpc-IsUntouched v s h = ground arith

  clean_vpcs-IsUntouched :
      (vs : List Resource) (s : Cleanup) → IsUntouched s → IsUntouched (clean_vpcs aws true vs s)
  unfolding clean_vpcs
  clean_vpcs-IsUntouched [] s h = h
  clean_vpcs-IsUntouched (v ∷ vs) s h = clean_vpcs-IsUntouched vs _ (clean_vpc-IsUntouched v s h)

  clean-IsUntouched : (s : Cleanup) → IsUntouched s → IsUntouched (clean aws true s).0
  unfolding clean
  clean-IsUntouched s h =
      let k = clean_rhmi-IsUntouched s.rhmi_resources s h in
      elim (Option-cases (clean_rhmi aws true s.rhmi_resources s).1) [
        | inr (e, q) ↦ rw (q, clean) k
        | inl q ↦
            rw (q, clean)
              (let s' = (clean_rhmi aws true s.rhmi_resources s).0 in
                clean_vpcs-IsUntouched s'.vpcs _ (clean_buckets-IsUntouched s'.s3_buckets _ k))
      ]

fetch_instance-IsUntouched :
    (i : Instance) (s : Cleanup) → IsUntouched s → IsUntouched (fetch_instance i s)
unfolding fetch_instance
fetch_instance-IsUntouched i s h = ground arith

fetch_instances-IsUntouched :
    (is : List Instance) (s : Cleanup) → IsUntouched s → IsUntouched (fetch_instances is s)
unfolding fetch_instances
fetch_instances-IsUntouched [] s h = h
fetch_instances-IsUntouched (i ∷ is) s h =
    fetch_instances-IsUntouched is _ (fetch_instance-IsUntouched i s h)

fetch_reservations-IsUntouched :
    (rs : List (List Instance)) (s : Cleanup)
    → IsUntouched s
    → IsUntouched (fetch_reservations rs s)
unfolding fetch_reservations
fetch_reservations-IsUntouched [] s h = h
fetch_reservations-IsUntouched (is ∷ rs) s h =
    fetch_reservations-IsUntouched rs _ (fetch_instances-IsUntouched is s h)

fetch_vpc-IsUntouched : (v : Vpc) (s : Cleanup) → IsUntouched s → IsUntouched (fetch_vpc v s)
unfolding fetch_vpc
fetch_vpc-IsUntouched v s h = ground arith

fetch_vpcs-IsUntouched :
    (vs : List Vpc) (s : Cleanup) → IsUntouched s → IsUntouched (fetch_vpcs vs s)
unfolding fetch_vpcs
fetch_vpcs-IsUntouched [] s h = h
fetch_vpcs-IsUntouched (v ∷ vs) s h = fetch_vpcs-IsUntouched vs _ (fetch_vpc-IsUntouched v s h)

fetch_bucket-IsUntouched :
    (region : Text) (b : Bucket) (s : Cleanup)
    → IsUntouched s
    → IsUntouched (fetch_bucket region b s)
unfolding fetch_bucket
fetch_bucket-IsUntouched region b s h = ground arith

fetch_buckets-IsUntouched :
    (region : Text) (bs : List Bucket) (s : Cleanup)
    → IsUntouched s
    → IsUntouched (fetch_buckets region bs s)
unfolding fetch_buckets
fetch_buckets-IsUntouched region [] s h = h
fetch_buckets-IsUntouched region (b ∷ bs) s h =
    fetch_buckets-IsUntouched region bs _ (fetch_bucket-IsUntouched region b s h)

init-IsUntouched : IsUntouched init
init-IsUntouched = record { no_calls = refl; none_deleted = refl }

run-IsUntouched :
    (aws : Services) (region : Text) (rs : Option (List (List Instance))) (vs : Option (List Vpc))
    (bs : Option (List Bucket))
    → aws.reservations ≡ rs
    → aws.vpcs ≡ vs
    → aws.buckets ≡ bs
    → IsUntouched (run aws true region).0
unfolding run
run-IsUntouched aws region none vs bs er ev eb = rw (er, run) init-IsUntouched
run-IsUntouched aws region (some rs) none bs er ev eb =
    rw (er, ev, run) (fetch_reservations-IsUntouched rs init init-IsUntouched)
run-IsUntouched aws region (some rs) (some vs) none er ev eb =
    rw (er, ev, eb, run)
      (fetch_vpcs-IsUntouched vs _ (fetch_reservations-IsUntouched rs init init-IsUntouched))
run-IsUntouched aws region (some rs) (some vs) (some bs) er ev eb =
    rw (er, ev, eb, run)
      (clean-IsUntouched aws _ (
        fetch_buckets-IsUntouched region bs _
          (fetch_vpcs-IsUntouched vs _ (fetch_reservations-IsUntouched rs init init-IsUntouched))))

-- A dry run makes no call that removes something and reports nothing as deleted, whatever AWS answers.
pub dry_run_removes_nothing :
    (aws : Services) (region : Text)
    → ((run aws true region).0.calls ≡ []) × ((run aws true region).0.deleted_resources ≡ [])
dry_run_removes_nothing aws region =
    let h = run-IsUntouched aws region aws.reservations aws.vpcs aws.buckets refl refl refl in
    (h.no_calls, h.none_deleted)
