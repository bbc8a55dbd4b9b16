-- ===== src/Output/Connect.antt =====
-- The address that src/module/stream_output.rs connects to.
use mixlab.Prelude.{
  ℕ, ◌≡◌, ◌≢◌, ◌↔◌, inl, inr, refl, ap, sym, ◌∙◌, ==_iff, true, List, [], ◌∷◌, Option, none, some,
  arith,
}
use mixlab.Prelude.Result.{Result, ok, err, panic, bind_panic}
use mixlab.Prelude.Lists.{same_text}
use mixlab.Output.{
  Network, Url, PublishInfo, publish_on, RtmpConnectError, url, missing_host, io, client,
  connect_rtmp, convert_err, ok_or, check_scheme, app_name_of, rtmp_scheme,
}
use mixlab.Output.Status.{StreamOutputParams}

-- The calls of the network return their errors.
pub record Returns (N : Network) : Type 0 where
  pub parse_url : (s : List ℕ) → N.parse_url s ≢ panic
  pub connect_tcp : (host : List ℕ) (port : ℕ) → N.connect_tcp host port ≢ panic
  pub set_nodelay : (conn : N.TcpStream) → N.set_nodelay conn ≢ panic
  pub start : (conn : N.TcpStream) → N.start conn ≢ panic
  pub publish : (c : N.Client) (info : _) → N.publish c info ≢ panic

same_text_lem : (s t : List ℕ) → (same_text s t ≡ true) ↔ (s ≡ t)
unfolding same_text
same_text_lem [] [] = ((λ _. refl), λ _. refl)
same_text_lem [] (y ∷ ys) = ((λ e. cc e), λ e. cc e)
same_text_lem (x ∷ xs) [] = ((λ e. cc e), λ e. cc e)
same_text_lem (x ∷ xs) (y ∷ ys) = grind (arith, same_text_lem xs ys)

convert_panic {ℓ} :
    {E F : Type 0} {A : Type ℓ} (f : E → F) (r : Result E A) → convert_err f r ≡ panic → r ≡ panic
unfolding convert_err
convert_panic f (ok a) e = cc
convert_panic f (err x) e = cc
convert_panic f panic e = refl

-- The path does not begin with a slash.
abbrev pub NoSlash : List ℕ → Type 0
NoSlash [] = Unit {0}
NoSlash (c ∷ path) = c ≢ 47

module _ {N : Network} where
  app_name_NoSlash : (path : List ℕ) → (app_name_of {N = N} path ≡ panic) ↔ NoSlash path
  unfolding app_name_of
  app_name_NoSlash [] = ((λ _. tt), λ _. refl)
  app_name_NoSlash (c ∷ path) = grind (arith, ==_iff c 47)

module _ (N : Network) where
  -- The text is an address of the scheme rtmp with a host, and a path without a slash in front.
  abbrev pub BadPath : List ℕ → Type 0
  BadPath text =
      (u : Url) × (N.parse_url text ≡ ok u)
      × (u.scheme ≡ rtmp_scheme)
      × ((host : List ℕ) × (u.host_str ≡ some host))
      × NoSlash u.path

module _ {N : Network} (returns : Returns N) where
  publish_on_returns :
      (hostname : List ℕ) (port : ℕ) (info : PublishInfo)
      → publish_on {N = N} hostname port info ≢ panic
  unfolding publish_on
  publish_on_returns hostname port info e =
      elim (bind_panic _ (convert_err io (N.connect_tcp hostname port)) e) [
        | inl bad ↦ returns.connect_tcp _ _ (convert_panic io _ bad)
        | inr (conn, _, e₁) ↦ elim (bind_panic _ (convert_err io (N.set_nodelay conn)) e₁) [
          | inl bad ↦ returns.set_nodelay _ (convert_panic io _ bad)
          | inr (ready, _, e₂) ↦ elim (bind_panic _ (convert_err client (N.start ready)) e₂) [
            | inl bad ↦ returns.start _ (convert_panic client _ bad)
            | inr (started, _, e₃) ↦ returns.publish _ _ (convert_panic client _ e₃)
          ]
        ]
      ]

  host_found :
      (o : Option (List ℕ)) (host : List ℕ)
      → ok_or {E = RtmpConnectError N} missing_host o ≡ ok host
      → o ≡ some host
  unfolding ok_or
  host_found none host e = cc
  host_found (some h) host e = cc

  host_returns : (o : Option (List ℕ)) → ok_or {E = RtmpConnectError N} missing_host o ≢ panic
  unfolding ok_or
  host_returns none e = cc
  host_returns (some h) e = cc

  parsed_url :
      (r : Result N.ParseError Url) (u : Url)
      → convert_err {F = RtmpConnectError N} url r ≡ ok u
      → r ≡ ok u
  unfolding convert_err
  parsed_url (ok v) u e = cc
  parsed_url (err x) u e = cc
  parsed_url panic u e = cc

  scheme_checked : (v u : Url) → check_scheme {N = N} v ≡ ok u → (v ≡ u) × (v.scheme ≡ rtmp_scheme)
  unfolding check_scheme
  scheme_checked v u e = grind (arith, same_text_lem v.scheme rtmp_scheme)

  scheme_returns : (v : Url) → check_scheme {N = N} v ≢ panic
  unfolding check_scheme
  scheme_returns v e = grind arith

  connect_bad :
      (params : StreamOutputParams)
      → connect_rtmp {N = N} params ≡ panic
      → BadPath N params.rtmp_url
  unfolding connect_rtmp
  connect_bad params e = elim (bind_panic _ (convert_err url (N.parse_url params.rtmp_url)) e) [
    | inl bad ↦ absurd (returns.parse_url _ (convert_panic url _ bad))
    | inr (v, parsed, e₁) ↦ elim (bind_panic _ (check_scheme v) e₁) [
      | inl bad ↦ absurd (scheme_returns v bad)
      | inr (u, checked, e₂) ↦ elim (bind_panic _ (ok_or missing_host u.host_str) e₂) [
        | inl bad ↦ absurd (host_returns u.host_str bad)
        | inr (host, found, e₃) ↦ elim (bind_panic _ (app_name_of u.path) e₃) [
          | inl bad ↦
              let (same, scheme) = scheme_checked v u checked in
              (
                u,
                parsed_url _ u (parsed ∙ ap ok same),
                ap (λ (w : Url). w.scheme) (sym same) ∙ scheme,
                (host, host_found u.host_str host found),
                (app_name_NoSlash u.path).0 bad,
              )
          | inr (app, _, e₄) ↦ absurd (publish_on_returns _ _ _ e₄)
        ]
      ]
    ]
  ]

  -- When the calls of the network return, connecting panics exactly on an address of the scheme rtmp
  -- that has a host and whose path does not begin with a slash.
  pub connect_rtmp-BadPath :
      (params : StreamOutputParams)
      → (connect_rtmp {N = N} params ≡ panic) ↔ BadPath N params.rtmp_url
  unfolding connect_rtmp convert_err ok_or check_scheme
  connect_rtmp-BadPath params = (
    connect_bad params,
    λ (u, parsed, scheme, (host, found), bad).
        rw
          (
            connect_rtmp,
            parsed,
            (same_text_lem u.scheme rtmp_scheme).1 scheme,
            found,
            (app_name_NoSlash {N = N} u.path).1 bad,
          )
          refl,
  )
