-- ===== src/Plugin/Order.antt =====
-- The order of the plugins.
use vais_lang.Prelude.{
  append-nil, ◌≡◌, refl, ap, ◌∙◌, List, [], ◌∷◌, ◌++◌, filter, Bool, true, false, arith,
}
use vais_lang.Plugin.{VaisXPlugin, is_pre, is_normal, is_post, sort_plugins}

module _ {A : Type 0} (p : A → Bool) where
  filter-append : (xs ys : List A) → filter p (xs ++ ys) ≡ filter p xs ++ filter p ys
  filter-append [] ys = refl
  filter-append (x ∷ xs) ys = ground (arith, filter-append xs ys)

  filter-filter_same : (xs : List A) → filter p (filter p xs) ≡ filter p xs
  filter-filter_same [] = refl
  filter-filter_same (x ∷ xs) = ground (arith, filter-filter_same xs)

  module _ (q : A → Bool) (apart : (x : A) → p x ≡ true → q x ≡ false) where
    filter-filter_apart : (xs : List A) → filter q (filter p xs) ≡ []
    filter-filter_apart [] = refl
    filter-filter_apart (x ∷ xs) = ground (arith, filter-filter_apart xs, apart x)

module _ {W R L M : Type 0} where
  pre-normal : (p : VaisXPlugin W R L M) → is_pre p ≡ true → is_normal p ≡ false
  pre-normal p h = ground (arith, h)

  pre-post : (p : VaisXPlugin W R L M) → is_pre p ≡ true → is_post p ≡ false
  pre-post p h = ground (arith, h)

  normal-pre : (p : VaisXPlugin W R L M) → is_normal p ≡ true → is_pre p ≡ false
  normal-pre p h = ground (arith, h)

  normal-post : (p : VaisXPlugin W R L M) → is_normal p ≡ true → is_post p ≡ false
  normal-post p h = ground (arith, h)

  post-pre : (p : VaisXPlugin W R L M) → is_post p ≡ true → is_pre p ≡ false
  post-pre p h = ground (arith, h)

  post-normal : (p : VaisXPlugin W R L M) → is_post p ≡ true → is_normal p ≡ false
  post-normal p h = ground (arith, h)

  filter_sorted :
      (q : VaisXPlugin W R L M → Bool) (ps : List (VaisXPlugin W R L M))
      → filter q (sort_plugins ps)
        ≡ filter q (filter is_pre ps)
          ++ (filter q (filter is_normal ps) ++ filter q (filter is_post ps))
  unfolding sort_plugins
  filter_sorted q ps =
      filter-append q (filter is_pre ps) _
      ∙ ap (λ r. filter q (filter is_pre ps) ++ r)
          (filter-append q (filter is_normal ps) (filter is_post ps))

  pre_sorted :
      (ps : List (VaisXPlugin W R L M)) → filter is_pre (sort_plugins ps) ≡ filter is_pre ps
  pre_sorted ps =
      filter_sorted is_pre ps
      ∙ (rw
          (
            filter-filter_same is_pre ps,
            filter-filter_apart is_normal is_pre normal-pre ps,
            filter-filter_apart is_post is_pre post-pre ps,
          )
          (append-nil (filter is_pre ps)))

  normal_sorted :
      (ps : List (VaisXPlugin W R L M)) → filter is_normal (sort_plugins ps) ≡ filter is_normal ps
  normal_sorted ps =
      filter_sorted is_normal ps
      ∙ (rw
          (
            filter-filter_same is_normal ps,
            filter-filter_apart is_pre is_normal pre-normal ps,
            filter-filter_apart is_post is_normal post-normal ps,
          )
          (append-nil (filter is_normal ps)))

  post_sorted :
      (ps : List (VaisXPlugin W R L M)) → filter is_post (sort_plugins ps) ≡ filter is_post ps
  post_sorted ps =
      filter_sorted is_post ps
      ∙ (rw
          (
            filter-filter_same is_post ps,
            filter-filter_apart is_pre is_post pre-post ps,
            filter-filter_apart is_normal is_post normal-post ps,
          )
          refl)

  -- The container keeps the plugins of each group, those with enforce "pre", with none and with "post",
  -- all of them and in the order given, and sorting a second time changes nothing: the list is in the
  -- order pre, normal, post.
  pub sort_plugins-filter :
      (ps : List (VaisXPlugin W R L M))
      → (filter is_pre (sort_plugins ps) ≡ filter is_pre ps)
        × (filter is_normal (sort_plugins ps) ≡ filter is_normal ps)
        × (filter is_post (sort_plugins ps) ≡ filter is_post ps)
        × (sort_plugins (sort_plugins ps) ≡ sort_plugins ps)
  unfolding sort_plugins
  sort_plugins-filter ps = (
    pre_sorted ps,
    normal_sorted ps,
    post_sorted ps,
    λ i. pre_sorted ps i ++ (normal_sorted ps i ++ post_sorted ps i),
  )
