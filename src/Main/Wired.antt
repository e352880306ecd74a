-- ===== src/Main/Wired.antt =====
-- cmd/swayrider-api/main.go: what a gateway that starts has, and why one does not.
use swayrider_api.Base.{
  ◌++◌, String, ◌≡◌, refl, sym, ap, ◌∙◌, subst, ◌⊎◌, inl, inr, false, Option, none, List, [], ◌∷◌,
  map, ◌==◌, eq_iff, true_not_false, Bool-cases, Option-cases, Sum-cases, In, All, arith, some,
}
use swayrider_api.Config.{Config}
use swayrider_api.Circuit.{
  Gobreaker, Registry, settings_of, set_breaker, add_breakers, new_registry,
}
use swayrider_api.Extension.Routing.{names}
use swayrider_api.Extension.{Url, Route, Refusal, load, validate, validate_from, with_timeout}
use swayrider_api.Extension.Validation.{AreRoutes, validate_iff}
use swayrider_api.Extension.Registered.{new_set}
use swayrider_api.RateLimit.Limiter.Outage.{IsValid, new_limiter-IsValid}
use swayrider_api.Main.{
  Address, Processes, Gateway, Fatal, no_client, clients, open_clients, unreadable, invalid_file,
  breaker_names, services, limiter_options, extension_routes, gateway_of, with_set, start,
}

inr-injective : {A B : Type 0} {a b : B} → ◌≡◌ {A = A ⊎ B} (inr a) (inr b) → a ≡ b
inr-injective e = cc

module _ {G W : Type 0} (gobreaker : Gobreaker G W) where
  -- The registry has a breaker with the settings of that name.
  abbrev pub HasBreaker : Registry G → String → Type 0
  HasBreaker breakers name = In (name, gobreaker.new_breaker (settings_of name)) breakers

  set_breaker-new :
      (name : String) (g : G) (breakers : Registry G)
      → In (name, g) (set_breaker gobreaker name g breakers)
  unfolding set_breaker
  set_breaker-new name g [] = inl refl
  set_breaker-new name g ((n, h) ∷ breakers) = elim (Bool-cases (n == name)) [
    | inl same ↦ rw (same, (eq_iff n name).0 same) (inl refl)
    | inr other ↦ rw (other) (inr (set_breaker-new name g breakers))
  ]

  set_breaker-other :
      (name other : String) (g h : G) (breakers : Registry G)
      → (name == other) ≡ false
      → In (other, h) breakers
      → In (other, h) (set_breaker gobreaker name g breakers)
  unfolding set_breaker
  set_breaker-other name other g h [] e i = absurd i
  set_breaker-other name other g h ((n, k) ∷ breakers) e i = elim (Bool-cases (n == name)) [
    | inl same ↦ rw (same) (elim i [
      | inl here ↦
          let clash : name ≡ other =
            sym ((eq_iff n name).0 same) ∙ sym (ap (λ (x : String × G). x.0) here) in
          absurd (true_not_false (sym ((eq_iff name other).1 clash) ∙ e))
      | inr later ↦ inr later
    ])
    | inr apart ↦ rw (apart) (elim i [
      | inl here ↦ inl here
      | inr later ↦ inr (set_breaker-other name other g h breakers e later)
    ])
  ]

  set_breaker-HasBreaker :
      (name other : String) (breakers : Registry G)
      → HasBreaker breakers other
      → HasBreaker
          (set_breaker gobreaker name (gobreaker.new_breaker (settings_of name)) breakers)
          other
  set_breaker-HasBreaker name other breakers h = elim (Bool-cases (name == other)) [
    | inl same ↦
        subst
          (λ n.
            In (n, gobreaker.new_breaker (settings_of n))
              (set_breaker gobreaker name (gobreaker.new_breaker (settings_of name)) breakers))
          ((eq_iff name other).0 same) (set_breaker-new name _ breakers)
    | inr apart ↦ set_breaker-other name other _ _ breakers apart h
  ]

  add_breakers-HasBreaker :
      (names : List String) (other : String) (breakers : Registry G)
      → HasBreaker breakers other
      → HasBreaker (add_breakers gobreaker names breakers) other
  unfolding add_breakers
  add_breakers-HasBreaker [] other breakers h = h
  add_breakers-HasBreaker (name ∷ names) other breakers h =
      add_breakers-HasBreaker names other _ (set_breaker-HasBreaker name other breakers h)

  add_breakers-All :
      (names : List String) (breakers : Registry G)
      → All (HasBreaker (add_breakers gobreaker names breakers)) names
  unfolding add_breakers
  add_breakers-All [] breakers = tt
  add_breakers-All (name ∷ names) breakers = (
    add_breakers-HasBreaker names name _ (set_breaker-new name _ breakers),
    add_breakers-All names _,
  )

  module _ (processes : Processes W) (url_parse : String → Option Url)
      (read_file : String → String ⊎ List Route) (connect : String → Address → Option String)
      (cfg : Config) where
    -- The clients of authservice, regionservice, routerservice and searchservice, with their addresses.
    abbrev pub IsClient : String → Address → Type 0
    IsClient name address =
        ((name ≡ "authclient") × (address ≡ (cfg.auth_service_host, cfg.auth_service_port)))
        ⊎ ((name ≡ "regionclient") × (address ≡ (cfg.region_service_host, cfg.region_service_port)))
        ⊎ ((name ≡ "routerclient") × (address ≡ (cfg.router_service_host, cfg.router_service_port)))
        ⊎ ((name ≡ "searchclient") × (address ≡ (cfg.search_service_host, cfg.search_service_port)))

    -- Why no gateway starts: a client cannot be made, the routes file cannot be read, or it holds an
    -- unsafe route.
    pub data Reason : Fatal → Type 0 where
      refused :
          (name text : String) (address : Address)
          → IsClient name address
          → connect name address ≡ some text
          → Reason (no_client name text)
      no_file :
          (text : String)
          → read_file cfg.extension_routes_file ≡ inl text
          → Reason (unreadable text)
      unsafe :
          (decoded : List Route) (refusal : Refusal)
          → read_file cfg.extension_routes_file ≡ inr decoded
          → load url_parse decoded ≡ inl refusal
          → Reason (invalid_file refusal)

    -- What a gateway that starts has.
    pub record IsWired (g : Gateway G W) : Type 0 where
      pub connected :
          (name : String) (address : Address) → IsClient name address → connect name address ≡ none
      pub routes : AreRoutes url_parse [] [] g.extensions
      pub breakers : All (HasBreaker g.breakers) (services ++ names g.extensions)
      pub limiter : IsValid g.limiter

    abbrev pub Outcome : Fatal ⊎ Gateway G W → Type 0
    Outcome (inl fatal) = Reason fatal
    Outcome (inr g) = IsWired g

    -- Every client can be made.
    AreMade : Type 0
    AreMade = open_clients connect (clients cfg) ≡ none

    made_of :
        AreMade
        → (name : String) (address : Address) → IsClient name address
        → connect name address ≡ none
    unfolding AreMade open_clients clients
    made_of h name address (inl (n, a)) = rw (n, a) (ground (arith, h))
    made_of h name address (inr (inl (n, a))) = rw (n, a) (ground (arith, h))
    made_of h name address (inr (inr (inl (n, a)))) = rw (n, a) (ground (arith, h))
    made_of h name address (inr (inr (inr (n, a)))) = rw (n, a) (ground (arith, h))

    clients-cases :
        AreMade
        ⊎ ((fatal : Fatal) × (open_clients connect (clients cfg) ≡ some fatal) × Reason fatal)
    unfolding AreMade open_clients clients
    clients-cases =
        elim (Option-cases (connect "authclient" (cfg.auth_service_host, cfg.auth_service_port))) [
          | inr (t, a) ↦ inr (_, rw a refl, refused _ t _ (inl (refl, refl)) a)
          | inl a ↦
              elim (Option-cases
                (connect "regionclient" (cfg.region_service_host, cfg.region_service_port))) [
                  | inr (t, b) ↦ inr (_, rw (a, b) refl, refused _ t _ (inr (inl (refl, refl))) b)
                  | inl b ↦
                      elim (Option-cases (
                        connect "routerclient"
                          (cfg.router_service_host, cfg.router_service_port))) [
                            | inr (t, c) ↦ inr (
                              _,
                              rw (a, b, c) refl,
                              refused _ t _ (inr (inr (inl (refl, refl)))) c,
                            )
                            | inl c ↦
                                elim (Option-cases (
                                  connect "searchclient"
                                    (cfg.search_service_host, cfg.search_service_port))) [
                                      | inr (t, d) ↦ inr (
                                        _,
                                        rw (a, b, c, d) refl,
                                        refused _ t _ (inr (inr (inr (refl, refl)))) d,
                                      )
                                      | inl d ↦ inl (rw (a, b, c, d) refl)
                                    ]
                          ]
                ]
        ]

    gateway_of-IsWired :
        (ext : List Route)
        → AreMade
        → validate url_parse ext ≡ none
        → IsWired (gateway_of gobreaker processes url_parse read_file cfg ext)
    unfolding gateway_of new_registry breaker_names
    gateway_of-IsWired ext made e = record {
      connected = made_of made;
      routes = (validate_iff url_parse ext).0 e;
      breakers = add_breakers-All (breaker_names ext) [];
      limiter = new_limiter-IsValid (limiter_options cfg);
    }

    start-failed :
        (fatal : Fatal)
        → AreMade
        → extension_routes gobreaker processes url_parse read_file cfg ≡ inl fatal
        → Reason fatal
        → Outcome (start gobreaker processes url_parse read_file connect cfg)
    unfolding start AreMade
    start-failed fatal made x reason =
        let stopped : start gobreaker processes url_parse read_file connect cfg ≡ inl fatal =
          rw (start, made, x) refl in
        subst Outcome (sym stopped) reason

    start-loaded :
        (ext : List Route)
        → AreMade
        → extension_routes gobreaker processes url_parse read_file cfg ≡ inr ext
        → validate url_parse ext ≡ none
        → Outcome (start gobreaker processes url_parse read_file connect cfg)
    unfolding start with_set new_set AreMade
    start-loaded ext made x e =
        let set : start gobreaker processes url_parse read_file connect cfg
            ≡ inr (gateway_of gobreaker processes url_parse read_file cfg ext) =
          rw (start, made, x, with_set, new_set, e) refl in
        subst Outcome (sym set) (gateway_of-IsWired ext made e)

    -- Load's routes are valid.
    load-validate :
        (decoded ext : List Route)
        → load url_parse decoded ≡ inr ext
        → validate url_parse ext ≡ none
    unfolding load
    load-validate decoded ext x =
        elim (Option-cases (validate url_parse (map (with_timeout url_parse) decoded))) [
          | inl valid ↦
              let made : load url_parse decoded ≡ inr (map (with_timeout url_parse) decoded) =
                rw (load, valid) refl in
              let same : map (with_timeout url_parse) decoded ≡ ext =
                inr-injective (sym made ∙ x) in
              subst (λ l. validate url_parse l ≡ none) same valid
          | inr (refusal, bad) ↦
              let made : load url_parse decoded ≡ inl refusal = rw (load, bad) refl in
              let clash = sym made ∙ x in cc
        ]

    extension_routes-Outcome :
        AreMade
        → (cfg.extension_routes_file == "") ≡ false
        → Outcome (start gobreaker processes url_parse read_file connect cfg)
    unfolding extension_routes
    extension_routes-Outcome made named = elim (Sum-cases (read_file cfg.extension_routes_file)) [
      | inl (text, x) ↦
          start-failed (unreadable text) made (rw (extension_routes, named, x) refl)
            (no_file text x)
      | inr (decoded, x) ↦ elim (Sum-cases (load url_parse decoded)) [
        | inl (refusal, y) ↦
            start-failed (invalid_file refusal) made (rw (extension_routes, named, x, y) refl)
              (unsafe decoded refusal x y)
        | inr (ext, y) ↦
            start-loaded ext made (rw (extension_routes, named, x, y) refl)
              (load-validate decoded ext y)
      ]
    ]

    -- main stops before the server only because the client of one of four services cannot be made, the
    -- routes file cannot be read or Load refuses it; NewSet never refuses what Load has accepted.
    -- Otherwise all four clients were made, the gateway's extension routes are safe, there is a breaker
    -- for the name of each service and of each extension route, with the settings of that name, and the
    -- limiter's invariant holds.
    pub start-Outcome : Outcome (start gobreaker processes url_parse read_file connect cfg)
    unfolding validate validate_from extension_routes start
    start-Outcome = elim clients-cases [
      | inr (fatal, x, reason) ↦
          let stopped : start gobreaker processes url_parse read_file connect cfg ≡ inl fatal =
            rw (start, x) refl in
          subst Outcome (sym stopped) reason
      | inl made ↦ elim (Bool-cases (cfg.extension_routes_file == "")) [
        | inl unset ↦ start-loaded [] made (rw (extension_routes, unset) refl) refl
        | inr named ↦ extension_routes-Outcome made named
      ]
    ]
