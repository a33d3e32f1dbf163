-- ===== src/Compose/Errors/Preflight.antt =====
-- Which exceptions the checks and builds before a start raise.
use bitheim.Prelude.{
  ℕ, String, Bool, true, false, Option, some, none, List, [], ◌∷◌, ◌≡◌, refl, arith, ◌==◌, nat_eq,
  string_eq,
}
use bitheim.Prelude.Int.{pos, int_eq}
use bitheim.Errors.{Exc, err}
use bitheim.Effect.{M}
use bitheim.Effect.Errors.{
  runtime, lifecycle, in_class, RaisesOnly, RaisesOnly-pure, RaisesOnly-raise, RaisesOnly-ask,
  RaisesOnly-lift, RaisesOnly-or_raise, RaisesOnly-require, RaisesOnly-if, RaisesOnly-bind,
}
use bitheim.Network.{Networks}
use bitheim.Compose.Docker.{Settings, Docker, network_ls, network_inspect, image_inspect, build}
use bitheim.Compose.Resources.{
  resolved_or, search_package, search_checkout, has_dockerfile, get_bitcoin_core_resource_dir,
}
use bitheim.Compose.Runtime.{
  check_subnets, project_network, is_not_found, check_network, check_networks,
  check_subnet_collision, build_image, ensure_image_available,
}
use bitheim.Compose.Errors.{Decodable, budget-RaisesOnly, run-RaisesOnly}

check_subnets_errors :
    (n : Networks) (target : n.Net) (subs : List String) (e : Exc)
    → check_subnets n target subs ≡ err e
    → in_class lifecycle e ≡ true
unfolding check_subnets
check_subnets_errors n target [] e h = absurd (cc h)
check_subnets_errors n target (sub ∷ subs) e h =
    ground (arith, check_subnets_errors n target subs e)

module _ {W : Type 0} (d : Docker W) (s : Settings) (doc : Decodable d) where
  resolved_or-RaisesOnly :
      (rest : M W String) (path : String) (found : Bool)
      → RaisesOnly runtime rest
      → RaisesOnly runtime (resolved_or d rest path found)
  unfolding resolved_or
  resolved_or-RaisesOnly rest path found r =
      RaisesOnly-if found _ _ (λ _. RaisesOnly-pure _) (λ _. r)

  checkout-RaisesOnly :
      (test : String → M W Bool) (path : String)
      → ((p : String) → RaisesOnly runtime (test p))
      → RaisesOnly runtime (search_checkout d test path)
  unfolding search_checkout
  checkout-RaisesOnly test path t =
      RaisesOnly-bind _ _ (t path)
        (λ found. resolved_or-RaisesOnly _ path found (RaisesOnly-raise _ refl))

  package-RaisesOnly :
      (test : String → M W Bool) (fallback : M W String) (path : Option String)
      → ((p : String) → RaisesOnly runtime (test p))
      → RaisesOnly runtime fallback
      → RaisesOnly runtime (search_package d test fallback path)
  unfolding search_package
  package-RaisesOnly test fallback none t f = f
  package-RaisesOnly test fallback (some path) t f =
      RaisesOnly-bind _ _ (t path) (λ found. resolved_or-RaisesOnly fallback path found f)

  has_dockerfile-RaisesOnly : (path : String) → RaisesOnly runtime (has_dockerfile d path)
  unfolding has_dockerfile
  has_dockerfile-RaisesOnly path =
      RaisesOnly-bind _ _ (RaisesOnly-ask _)
        (λ dir. RaisesOnly-if dir _ _ (λ _. RaisesOnly-ask _) (λ _. RaisesOnly-pure false))

  pub resource_dir-RaisesOnly : RaisesOnly runtime (get_bitcoin_core_resource_dir d)
  unfolding get_bitcoin_core_resource_dir
  resource_dir-RaisesOnly = RaisesOnly-bind _ _ (RaisesOnly-ask _) (λ path.
      package-RaisesOnly _ _ path has_dockerfile-RaisesOnly
        (checkout-RaisesOnly _ _ has_dockerfile-RaisesOnly))

  check_network-RaisesOnly :
      (target : d.networks.Net) (name : String) (deadline : ℕ)
      → RaisesOnly lifecycle (check_network d s target name deadline)
  unfolding check_network
  check_network-RaisesOnly target name deadline =
      RaisesOnly-bind _ _ (budget-RaisesOnly d s doc lifecycle deadline _ refl) (λ r.
        RaisesOnly-bind _ _
          (run-RaisesOnly d s doc lifecycle (network_inspect name) none r _ _ refl refl refl)
          (λ insp.
            RaisesOnly-bind _ _ (RaisesOnly-require (insp.returncode == pos 0) _ refl)
              (λ _. RaisesOnly-lift _ (check_subnets_errors d.networks target _))))

  check_networks-RaisesOnly :
      (target : d.networks.Net) (node_id : String) (deadline : ℕ) (names : List String)
      → RaisesOnly lifecycle (check_networks d s target node_id deadline names)
  unfolding check_networks
  check_networks-RaisesOnly target node_id deadline [] = RaisesOnly-pure tt
  check_networks-RaisesOnly target node_id deadline (name ∷ names) =
      RaisesOnly-if (name == project_network node_id) _ _
        (λ _. check_networks-RaisesOnly target node_id deadline names)
        (λ _.
          RaisesOnly-bind _ _ (check_network-RaisesOnly target name deadline)
            (λ _. check_networks-RaisesOnly target node_id deadline names))

  pub collision-RaisesOnly :
      (node_id : String) (deadline : ℕ)
      → RaisesOnly lifecycle (check_subnet_collision d s node_id deadline)
  unfolding check_subnet_collision
  collision-RaisesOnly node_id deadline =
      RaisesOnly-bind _ _ (RaisesOnly-or_raise _ _ refl) (λ target.
        RaisesOnly-bind _ _ (budget-RaisesOnly d s doc lifecycle deadline _ refl) (λ r.
          RaisesOnly-bind _ _
            (run-RaisesOnly d s doc lifecycle network_ls none r _ _ refl refl refl)
            (λ res.
              RaisesOnly-bind _ _ (RaisesOnly-require (res.returncode == pos 0) _ refl)
                (λ _. check_networks-RaisesOnly target node_id deadline _))))

  build-RaisesOnly :
      (image_ref : String) (context : Option String) (deadline : ℕ)
      → RaisesOnly runtime (build_image d s image_ref context deadline)
  unfolding build_image
  build-RaisesOnly image_ref context deadline =
      RaisesOnly-bind _ _ (RaisesOnly-or_raise context _ refl) (λ dir.
        RaisesOnly-bind _ _ (RaisesOnly-ask _) (λ dockerfile.
          RaisesOnly-bind _ _ (RaisesOnly-require dockerfile _ refl) (λ _.
            RaisesOnly-bind _ _ (budget-RaisesOnly d s doc runtime deadline _ refl) (λ r.
              RaisesOnly-bind _ _
                (run-RaisesOnly d s doc runtime (build image_ref dir) none r _ _ refl refl refl)
                (λ res. RaisesOnly-require (res.returncode == pos 0) _ refl)))))

  pub image-RaisesOnly :
      (image_ref : String) (context : Option String) (deadline : ℕ)
      → RaisesOnly runtime (ensure_image_available d s image_ref context deadline)
  unfolding ensure_image_available
  image-RaisesOnly image_ref context deadline =
      RaisesOnly-bind _ _ (budget-RaisesOnly d s doc runtime deadline _ refl) (λ r.
        RaisesOnly-bind _ _
          (run-RaisesOnly d s doc runtime (image_inspect image_ref) none r _ _ refl refl refl)
          (λ insp.
            RaisesOnly-if (insp.returncode == pos 0) _ _ (λ _. RaisesOnly-pure tt)
              (λ _.
                RaisesOnly-bind _ _ (RaisesOnly-require (is_not_found insp.stderr) _ refl)
                  (λ _. build-RaisesOnly image_ref context deadline))))
