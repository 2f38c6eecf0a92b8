-- ===== src/App/Containers/Quiet.antt =====
-- What ContainerCreate of internal/app/containers.go asks before it allocates ports: only the world behind
-- the ports may change.
use dockerdless.Base.{refl, Text, bytes, Result, ok, err, ◌++◌, text_eq, ◌==◌, if_both}
use dockerdless.Failures.{GoError}
use dockerdless.Cni.Ports.{port_key_eq}
use dockerdless.Cni.Modes.{
  NetworkError, Mode, host, isolated, network, parse_network_mode, default_network_name,
}
use dockerdless.App.Ports.{Ports}
use dockerdless.App.Service.{State, replace_error, on_error, pure, call, ◌>>◌, translated}
use dockerdless.App.Service.Frames.{Quiet, IsQuiet, Quiet-refl, >>=-IsQuiet}
use dockerdless.App.Containers.Request.{network_name_for}
use dockerdless.App.Containers.{
  lookup_error, inspect_create_image, ensure_network, resolve_named_network, resolve_parsed,
  resolve_create_network,
}

module _ {W : Type 0} where
  replace_error-Quiet :
      {A : Type 0} (f : GoError → GoError) (s : State W) (r : Result GoError A × State W)
      → Quiet s r.1
      → Quiet s (replace_error f r).1
  replace_error-Quiet f s (ok a, t) q = q
  replace_error-Quiet f s (err e, t) q = q

  call-IsQuiet : {A : Type 0} (f : W → Result GoError A × W) → IsQuiet (call f)
  call-IsQuiet f s = record { registry = refl; logs = refl; alloc = refl }

  on_error-call :
      {A : Type 0} (g : GoError → GoError) (f : W → Result GoError A × W)
      → IsQuiet (on_error g (call f))
  unfolding on_error
  on_error-call g f s = replace_error-Quiet g s (call f s) (call-IsQuiet f s)

module _ {W : Type 0} (p : Ports W) where
  pub inspect_create_image-IsQuiet : (ref : Text) → IsQuiet (inspect_create_image p ref)
  unfolding inspect_create_image
  inspect_create_image-IsQuiet ref =
      on_error-call (lookup_error (bytes "No such image: " ++ ref)) (p.inspect_image ref)

  ensure_network-IsQuiet : (name : Text) → IsQuiet (ensure_network p name)
  unfolding ensure_network
  ensure_network-IsQuiet name =
      if_both IsQuiet (name == default_network_name)
        (>>=-IsQuiet (λ id. pure tt) (on_error translated (call p.ensure_default_network))
          (on_error-call translated p.ensure_default_network) (λ id. Quiet-refl))
        Quiet-refl

  resolve_named_network-IsQuiet : (name : Text) → IsQuiet (resolve_named_network p name)
  unfolding resolve_named_network ◌>>◌
  resolve_named_network-IsQuiet name =
      let wrong = lookup_error (bytes "network " ++ name ++ bytes " not found") in
      let find = on_error wrong (call (p.resolve_network name)) in
      >>=-IsQuiet (λ n. pure (network, n)) (ensure_network p name >> find)
        (>>=-IsQuiet (λ u. find) (ensure_network p name) (ensure_network-IsQuiet name)
          (λ u. on_error-call wrong (p.resolve_network name)))
        (λ n. Quiet-refl)

  resolve_parsed-IsQuiet :
      (mode : Text) (m : Result NetworkError Mode) → IsQuiet (resolve_parsed p mode m)
  resolve_parsed-IsQuiet mode (err e) = Quiet-refl
  resolve_parsed-IsQuiet mode (ok host) = Quiet-refl
  resolve_parsed-IsQuiet mode (ok isolated) = Quiet-refl
  resolve_parsed-IsQuiet mode (ok network) = resolve_named_network-IsQuiet (network_name_for mode)

  pub resolve_create_network-IsQuiet : (mode : Text) → IsQuiet (resolve_create_network p mode)
  unfolding resolve_create_network
  resolve_create_network-IsQuiet mode = resolve_parsed-IsQuiet mode (parse_network_mode mode)
