-- ===== src/AwsAccount/Safety.antt =====
-- What `run` removes: nothing of a cluster that still has an instance, and nothing at all in a dry run.
use delorean.Base.{
  ◌||◌, leb, subst, Option-cases, List, [], ◌∷◌, ◌++◌, Bool, true, Option, none, some, ◌≡◌, ◌≢◌,
  refl, ◌⊎◌, inl, inr, Text, text_eq_iff, get, put, get-put, Map, In, All, All-append, Bool-cases,
  arith, length,
}
use delorean.AwsAccount.{
  leb, unused, keep_resource, Services, Resource, Cleanup, Call, clean_cluster, remove_objects,
  remove_bucket, remove_vpc, append_at, is_velero_bucket, clean_rhmi, remove_s3_bucket,
  clean_bucket, clean_buckets, clean_vpc, clean_vpcs, clean, record_call,
}

get-append_at :
    (t tag : Text) (rs : List Resource) (m : Map (List Resource))
    → get t (append_at tag rs m) ≡ none
    → get t m ≡ none
unfolding append_at
get-append_at t tag rs m h = elim (Option-cases (get tag m)) [
  | inl e ↦ ground (arith, get-put tag t rs m, text_eq_iff tag t)
  | inr (old, e) ↦ ground (arith, get-put tag t (old ++ rs) m, text_eq_iff tag t)
]

get-put_old :
    (t tag : Text) (rs : List Resource) (m : Map (List Resource))
    → get t (put tag rs m) ≡ none
    → get t m ≡ none
get-put_old t tag rs m h = ground (arith, get-put tag t rs m, text_eq_iff tag t)

-- Why a call is made, by the resources `osd` that were in use at the start.
module _ (osd : Map (List Resource)) (buckets vpcs : List Resource) where
  abbrev pub IsUnused : Resource → Type 0
  IsUnused r = (get r.cluster_tag osd ≡ none) × (r.cluster_tag ≢ [])

  abbrev pub HasUnusedBucket : Text → Type 0
  HasUnusedBucket name =
      (b : Resource) × In b buckets × (b.id ≡ name) × (is_velero_bucket name ≡ true) × IsUnused b

  abbrev pub Justified : Call → Type 0
  Justified (clean_cluster tag) = get tag osd ≡ none
  Justified (remove_objects name) = HasUnusedBucket name
  Justified (remove_bucket name) = HasUnusedBucket name
  Justified (remove_vpc id) =
      (v : Resource) × In v vpcs × (v.id ≡ id) × (IsUnused v ⊎ (v.tags ≡ []))

  -- Resources in use stay so, and all calls so far are justified.
  pub record IsSafe (s : Cleanup) : Type 0 where
    pub in_use : (t : Text) → get t s.osd_resources ≡ none → get t osd ≡ none
    pub justified : All Justified s.calls
    pub same_buckets : s.s3_buckets ≡ buckets
    pub same_vpcs : s.vpcs ≡ vpcs

  call-IsSafe : (s : Cleanup) (c : Call) → Justified c → IsSafe s → IsSafe (record_call c s)
  call-IsSafe s c j h = record {
    in_use = h.in_use;
    justified = All-append Justified s.calls (c ∷ []) h.justified (j, tt);
    same_buckets = h.same_buckets;
    same_vpcs = h.same_vpcs;
  }

  keep-IsSafe : (s : Cleanup) (r : Resource) → IsSafe s → IsSafe (keep_resource r s)
  keep-IsSafe s r h = record {
    in_use = λ t e. h.in_use t (get-append_at t r.cluster_tag (r ∷ []) s.osd_resources e);
    justified = h.justified;
    same_buckets = h.same_buckets;
    same_vpcs = h.same_vpcs;
  }

  deleted-IsSafe :
      (s : Cleanup) (rs : List Resource) → IsSafe s → IsSafe (record s { deleted_resources = rs })
  deleted-IsSafe s rs h = record {
    in_use = h.in_use;
    justified = h.justified;
    same_buckets = h.same_buckets;
    same_vpcs = h.same_vpcs;
  }

  module _ (aws : Services) (dry_run : Bool) where
    clean_rhmi-IsSafe :
        (m : Map (List Resource)) (s : Cleanup) → IsSafe s → IsSafe (clean_rhmi aws dry_run m s).0
    unfolding clean_rhmi
    clean_rhmi-IsSafe [] s h = h
    clean_rhmi-IsSafe ((tag, rs) ∷ rest) s h = elim (Option-cases (get tag s.osd_resources)) [
      | inr (old, e) ↦
          rw (e, clean_rhmi)
            (clean_rhmi-IsSafe rest _ (record {
              in_use = λ t n. h.in_use t (get-put_old t tag (old ++ rs) s.osd_resources n);
              justified = h.justified;
              same_buckets = h.same_buckets;
              same_vpcs = h.same_vpcs;
            }))
      | inl e ↦
          rw (e, clean_rhmi)
            (elim (Bool-cases dry_run) [
              | inl d ↦ rw d (clean_rhmi-IsSafe rest s h)
              | inr d ↦
                  let k = call-IsSafe s (clean_cluster tag) (h.in_use tag e) h in
                  rw d (elim (Bool-cases (aws.cluster_service tag)) [
                    | inr f ↦ rw f k
                    | inl f ↦
                        rw f (
                          clean_rhmi-IsSafe rest _ (deleted-IsSafe _ (s.deleted_resources ++ rs) k))
                  ])
            ])
    ]

    remove_listed-IsSafe :
        (name : Text) (s : Cleanup) (o : Option (List Text))
        → aws.list_objects name ≡ o
        → HasUnusedBucket name
        → IsSafe s
        → IsSafe (remove_s3_bucket aws dry_run name s).0
    unfolding remove_s3_bucket
    remove_listed-IsSafe name s none e u h = rw (e, remove_s3_bucket) h
    remove_listed-IsSafe name s (some []) e u h =
        rw (e, remove_s3_bucket) (call-IsSafe s (remove_bucket name) u h)
    remove_listed-IsSafe name s (some (o ∷ os)) e u h =
        let k = call-IsSafe s (remove_objects name) u h in
        rw (e, remove_s3_bucket)
          (elim (Bool-cases (aws.delete_objects name)) [
            | inl d ↦ rw d (call-IsSafe _ (remove_bucket name) u k)
            | inr d ↦ rw d k
          ])

    unused-IsUnused : (r : Resource) (s : Cleanup) → IsSafe s → unused r s ≡ true → IsUnused r
    unused-IsUnused r s h e = elim (Option-cases (get r.cluster_tag s.osd_resources)) [
      | inl n ↦ (h.in_use r.cluster_tag n, ground (arith, text_eq_iff r.cluster_tag []))
      | inr (old, n) ↦ absurd (ground arith)
    ]

    clean_bucket-IsSafe :
        (b : Resource) (s : Cleanup)
        → In b buckets
        → IsSafe s
        → IsSafe (clean_bucket aws dry_run b s)
    unfolding clean_bucket
    clean_bucket-IsSafe b s m h = elim (Bool-cases (is_velero_bucket b.id)) [
      | inr v ↦ rw v h
      | inl v ↦ rw v (elim (Bool-cases (unused b s)) [
        | inr e ↦ rw e (keep-IsSafe s b h)
        | inl e ↦ rw e (elim (Bool-cases dry_run) [
          | inl d ↦ rw d h
          | inr d ↦
              let k =
                remove_listed-IsSafe b.id s _ refl (b, m, refl, v, unused-IsUnused b s h e) h in
              rw d (elim (Bool-cases (remove_s3_bucket aws dry_run b.id s).1) [
                | inl f ↦ rw f (deleted-IsSafe _ _ k)
                | inr f ↦ rw f k
              ])
        ])
      ])
    ]

    clean_buckets-IsSafe :
        (bs : List Resource) (s : Cleanup)
        → ((b : Resource) → In b bs → In b buckets)
        → IsSafe s
        → IsSafe (clean_buckets aws dry_run bs s)
    unfolding clean_buckets
    clean_buckets-IsSafe [] s sub h = h
    clean_buckets-IsSafe (b ∷ bs) s sub h =
        clean_buckets-IsSafe bs _ (λ c m. sub c (inr m))
          (clean_bucket-IsSafe b s (sub b (inl refl)) h)

    no_tags : (tags : Map Text) → leb (length tags) 0 ≡ true → tags ≡ []
    no_tags [] e = refl
    no_tags (t ∷ tags) e = absurd (ground arith)

    reason :
        (v : Resource) (s : Cleanup)
        → IsSafe s
        → (unused v s || leb (length v.tags) 0) ≡ true
        → IsUnused v ⊎ (v.tags ≡ [])
    reason v s h e = elim (Bool-cases (unused v s)) [
      | inl u ↦ inl (unused-IsUnused v s h u)
      | inr u ↦ inr (no_tags v.tags (rw u at e))
    ]

    clean_vpc-IsSafe :
        (v : Resource) (s : Cleanup) → In v vpcs → IsSafe s → IsSafe (clean_vpc aws dry_run v s)
    unfolding clean_vpc
    clean_vpc-IsSafe v s m h = elim (Bool-cases (unused v s || leb (length v.tags) 0)) [
      | inr e ↦ rw e (keep-IsSafe s v h)
      | inl e ↦ rw e (elim (Bool-cases dry_run) [
        | inl d ↦ rw d h
        | inr d ↦
            let k = call-IsSafe s (remove_vpc v.id) (v, m, refl, reason v s h e) h in
            rw d (elim (Bool-cases (aws.delete_vpc v.id)) [
              | inl f ↦ rw f (deleted-IsSafe _ _ k)
              | inr f ↦ rw f k
            ])
      ])
    ]

    clean_vpcs-IsSafe :
        (vs : List Resource) (s : Cleanup)
        → ((v : Resource) → In v vs → In v vpcs)
        → IsSafe s
        → IsSafe (clean_vpcs aws dry_run vs s)
    unfolding clean_vpcs
    clean_vpcs-IsSafe [] s sub h = h
    clean_vpcs-IsSafe (v ∷ vs) s sub h =
        clean_vpcs-IsSafe vs _ (λ c m. sub c (inr m)) (clean_vpc-IsSafe v s (sub v (inl refl)) h)

    pub clean-IsSafe : (s : Cleanup) → IsSafe s → IsSafe (clean aws dry_run s).0
    unfolding clean
    clean-IsSafe s h =
        let k = clean_rhmi-IsSafe s.rhmi_resources s h in
        elim (Option-cases (clean_rhmi aws dry_run s.rhmi_resources s).1) [
          | inr (e, q) ↦ rw (q, clean) k
          | inl q ↦
              rw (q, clean)
                (clean_vpcs-IsSafe _ _ (λ v m. subst (In v) k.same_vpcs m)
                  (clean_buckets-IsSafe _ _ (λ b m. subst (In b) k.same_buckets m) k))
        ]

-- Every call of `clean` is justified by what was in use when it began.
pub clean-Justified :
    (aws : Services) (dry_run : Bool) (s : Cleanup)
    → s.calls ≡ []
    → All (Justified s.osd_resources s.s3_buckets s.vpcs) (clean aws dry_run s).0.calls
clean-Justified aws dry_run s e =
    (clean-IsSafe s.osd_resources s.s3_buckets s.vpcs aws dry_run s (record {
      in_use = λ t n. n;
      justified = rw e tt;
      same_buckets = refl;
      same_vpcs = refl;
    })).justified
