-- ===== src/AwsAccount/Fetch.antt =====
-- What the three fetches put into the state.
use delorean.Base.{
  List, [], ◌∷◌, ◌++◌, false, none, some, ◌≡◌, ◌≢◌, refl, inl, inr, Text, codes, text_eq,
  text_eq_iff, get, get-put, Map, In, In-append, Bool-cases, Option-cases, arith,
}
use delorean.AwsAccount.{
  region_of, Resource, Instance, Vpc, Bucket, Tags, Cleanup, append_at, extract_cluster_tag,
  fetch_instance, fetch_instances, fetch_reservations, fetch_vpc, fetch_vpcs, add_bucket,
  fetch_bucket, fetch_buckets,
}

abbrev pub tag_of : Tags → Text
tag_of tags = (extract_cluster_tag tags).0

abbrev pub IsRunning : Instance → Type 0
IsRunning i = (text_eq i.state_name (codes "terminated") ≡ false) × (tag_of i.tag_set ≢ [])

-- Where a resource of the state comes from.
abbrev pub FromVpc : List Vpc → Resource → Type 0
FromVpc vs r =
    (v : Vpc) × In v vs
    × (v.vpc_id ≡ r.id)
    × (v.is_default ≡ false)
    × (v.tag_set ≡ r.tags)
    × (tag_of v.tag_set ≡ r.cluster_tag)

abbrev pub FromBucket : List Bucket → Resource → Type 0
FromBucket bs r =
    (b : Bucket) × (tags : Tags) × In b bs
    × (b.name ≡ r.id)
    × (b.tagging ≡ some tags)
    × (tag_of tags ≡ r.cluster_tag)

append_at_there :
    (tag : Text) (rs : List Resource) (m : Map (List Resource))
    → get tag (append_at tag rs m) ≢ none
unfolding append_at
append_at_there tag rs m = elim (Option-cases (get tag m)) [
  | inl e ↦ ground (arith, get-put tag tag rs m, text_eq_iff tag tag)
  | inr (old, e) ↦ ground (arith, get-put tag tag (old ++ rs) m, text_eq_iff tag tag)
]

append_at_keeps :
    (t tag : Text) (rs : List Resource) (m : Map (List Resource))
    → get t m ≢ none
    → get t (append_at tag rs m) ≢ none
unfolding append_at
append_at_keeps t tag rs m h = elim (Option-cases (get tag m)) [
  | inl e ↦ ground (arith, get-put tag t rs m)
  | inr (old, e) ↦ ground (arith, get-put tag t (old ++ rs) m)
]

abbrev InUse : Text → Cleanup → Type 0
InUse t s = get t s.osd_resources ≢ none

fetch_instance_keeps :
    (t : Text) (i : Instance) (s : Cleanup) → InUse t s → InUse t (fetch_instance i s)
unfolding fetch_instance
fetch_instance_keeps t i s h = elim (Bool-cases (text_eq i.state_name (codes "terminated"))) [
  | inl e ↦ rw e h
  | inr e ↦ rw e (elim (Bool-cases (text_eq (tag_of i.tag_set) [])) [
    | inl d ↦ rw d h
    | inr d ↦ rw d (append_at_keeps t _ _ s.osd_resources h)
  ])
]

fetch_instance_there :
    (i : Instance) (s : Cleanup) → IsRunning i → InUse (tag_of i.tag_set) (fetch_instance i s)
unfolding fetch_instance
fetch_instance_there i s (alive, tagged) = elim (Bool-cases (text_eq (tag_of i.tag_set) [])) [
  | inl d ↦ absurd (tagged ((text_eq_iff _ _).0 d))
  | inr d ↦ rw (alive, d) (append_at_there (tag_of i.tag_set) _ s.osd_resources)
]

fetch_instances_keeps :
    (t : Text) (is : List Instance) (s : Cleanup) → InUse t s → InUse t (fetch_instances is s)
unfolding fetch_instances
fetch_instances_keeps t [] s h = h
fetch_instances_keeps t (i ∷ is) s h = fetch_instances_keeps t is _ (fetch_instance_keeps t i s h)

fetch_instances_there :
    (i : Instance) (is : List Instance) (s : Cleanup)
    → In i is
    → IsRunning i
    → InUse (tag_of i.tag_set) (fetch_instances is s)
unfolding fetch_instances
fetch_instances_there i [] s m h = absurd m
fetch_instances_there i (j ∷ is) s (inl e) h =
    fetch_instances_keeps _ is _ (rw e (fetch_instance_there i s h))
fetch_instances_there i (j ∷ is) s (inr m) h = fetch_instances_there i is _ m h

fetch_reservations_keeps :
    (t : Text) (rs : List (List Instance)) (s : Cleanup)
    → InUse t s
    → InUse t (fetch_reservations rs s)
unfolding fetch_reservations
fetch_reservations_keeps t [] s h = h
fetch_reservations_keeps t (is ∷ rs) s h =
    fetch_reservations_keeps t rs _ (fetch_instances_keeps t is s h)

pub fetch_reservations_there :
    (i : Instance) (is : List Instance) (rs : List (List Instance)) (s : Cleanup)
    → In is rs
    → In i is
    → IsRunning i
    → InUse (tag_of i.tag_set) (fetch_reservations rs s)
unfolding fetch_reservations
fetch_reservations_there i is [] s m n h = absurd m
fetch_reservations_there i is (js ∷ rs) s (inl e) n h =
    fetch_reservations_keeps _ rs _ (rw e (fetch_instances_there i is s n h))
fetch_reservations_there i is (js ∷ rs) s (inr m) n h = fetch_reservations_there i is rs _ m n h

-- The state that a fetch leaves: what is in use as before, no call made, and each resource from its list.
pub record IsFetched (osd : Map (List Resource)) (vs : List Vpc) (bs : List Bucket) (s : Cleanup)
    : Type 0 where
  pub same_use : s.osd_resources ≡ osd
  pub no_calls : s.calls ≡ []
  pub from_vpc : (r : Resource) → In r s.vpcs → FromVpc vs r
  pub from_bucket : (r : Resource) → In r s.s3_buckets → FromBucket bs r

-- The fetch of the instances makes no call and lists neither VPC nor bucket.
pub record IsBare (s : Cleanup) : Type 0 where
  pub no_calls : s.calls ≡ []
  pub no_vpcs : s.vpcs ≡ []
  pub no_buckets : s.s3_buckets ≡ []

fetch_instances-IsBare :
    (is : List Instance) (s : Cleanup) → IsBare s → IsBare (fetch_instances is s)
unfolding fetch_instances
fetch_instances-IsBare [] s h = h
fetch_instances-IsBare (i ∷ is) s h = fetch_instances-IsBare is _ (ground arith)

pub fetch_reservations-IsBare :
    (rs : List (List Instance)) (s : Cleanup) → IsBare s → IsBare (fetch_reservations rs s)
unfolding fetch_reservations
fetch_reservations-IsBare [] s h = h
fetch_reservations-IsBare (is ∷ rs) s h =
    fetch_reservations-IsBare rs _ (fetch_instances-IsBare is s h)

module _ (osd : Map (List Resource)) (vs : List Vpc) (bs : List Bucket) where
  fetch_vpc-IsFetched :
      (v : Vpc) (s : Cleanup)
      → In v vs
      → IsFetched osd vs bs s
      → IsFetched osd vs bs (fetch_vpc v s)
  unfolding fetch_vpc
  fetch_vpc-IsFetched v s m h = elim (Bool-cases v.is_default) [
    | inl d ↦ rw d h
    | inr d ↦ rw d (elim (Bool-cases (extract_cluster_tag v.tag_set).1) [
      | inl t ↦ rw t (record {
        same_use = h.same_use;
        no_calls = h.no_calls;
        from_vpc = h.from_vpc;
        from_bucket = h.from_bucket;
      })
      | inr t ↦ rw t (record {
        same_use = h.same_use;
        no_calls = h.no_calls;
        from_bucket = h.from_bucket;
        from_vpc = λ r n. elim (In-append r s.vpcs _ n) [
          | inl old ↦ h.from_vpc r old
          | inr (inl e) ↦ rw (← e) (v, m, refl, d, refl, refl)
          | inr (inr z) ↦ absurd z
        ];
      })
    ])
  ]

  pub fetch_vpcs-IsFetched :
      (ws : List Vpc) (s : Cleanup)
      → ((v : Vpc) → In v ws → In v vs)
      → IsFetched osd vs bs s
      → IsFetched osd vs bs (fetch_vpcs ws s)
  unfolding fetch_vpcs
  fetch_vpcs-IsFetched [] s sub h = h
  fetch_vpcs-IsFetched (w ∷ ws) s sub h =
      fetch_vpcs-IsFetched ws _ (λ v m. sub v (inr m))
        (fetch_vpc-IsFetched w s (sub w (inl refl)) h)

  add_bucket-IsFetched :
      (b : Bucket) (tags : Tags) (s : Cleanup)
      → In b bs
      → b.tagging ≡ some tags
      → IsFetched osd vs bs s
      → IsFetched osd vs bs (add_bucket b.name tags s)
  unfolding add_bucket
  add_bucket-IsFetched b tags s m g h = elim (Bool-cases (extract_cluster_tag tags).1) [
    | inl t ↦ rw t (record {
      same_use = h.same_use;
      no_calls = h.no_calls;
      from_vpc = h.from_vpc;
      from_bucket = h.from_bucket;
    })
    | inr t ↦ rw t (record {
      same_use = h.same_use;
      no_calls = h.no_calls;
      from_vpc = h.from_vpc;
      from_bucket = λ r n. elim (In-append r s.s3_buckets _ n) [
        | inl old ↦ h.from_bucket r old
        | inr (inl e) ↦ rw (← e) (b, tags, m, refl, g, refl)
        | inr (inr z) ↦ absurd z
      ];
    })
  ]

  fetch_bucket-IsFetched :
      (region : Text) (b : Bucket) (s : Cleanup)
      → In b bs
      → IsFetched osd vs bs s
      → IsFetched osd vs bs (fetch_bucket region b s)
  unfolding fetch_bucket
  fetch_bucket-IsFetched region b s m h = elim (Option-cases b.location) [
    | inl e ↦ rw (e, fetch_bucket) h
    | inr (c, e) ↦
        rw (e, fetch_bucket)
          (elim (Bool-cases (text_eq (region_of c) region)) [
            | inr d ↦ rw d h
            | inl d ↦ rw d (elim (Option-cases b.tagging) [
              | inl g ↦ rw (g, fetch_bucket) h
              | inr (tags, g) ↦ rw (g, fetch_bucket) (add_bucket-IsFetched b tags s m g h)
            ])
          ])
  ]

  pub fetch_buckets-IsFetched :
      (region : Text) (cs : List Bucket) (s : Cleanup)
      → ((b : Bucket) → In b cs → In b bs)
      → IsFetched osd vs bs s
      → IsFetched osd vs bs (fetch_buckets region cs s)
  unfolding fetch_buckets
  fetch_buckets-IsFetched region [] s sub h = h
  fetch_buckets-IsFetched region (c ∷ cs) s sub h =
      fetch_buckets-IsFetched region cs _ (λ b m. sub b (inr m))
        (fetch_bucket-IsFetched region c s (sub c (inl refl)) h)
