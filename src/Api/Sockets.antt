-- ===== src/Api/Sockets.antt =====
-- src/api.rs: what `serve` does before clients are accepted, one transport after the other.
use ghaf_device_manager.Base.{
  ℕ, String, ◌<>◌, Bool, false, not, ◌||◌, Option, none, some, List, [], ◌∷◌, if◌then◌else◌, leb,
  is_some, is_empty, decimal, parent, from_str_radix,
}
use ghaf_device_manager.Base.Outcome.{Error, Result, ok, err, said, context, with_context}
use ghaf_device_manager.Config.Types.{ApiTransport, Api}
use ghaf_device_manager.Manager.VmmArgs.{known_id}

pub data SocketCall : Type 0 where
  create_dir_all : String → SocketCall
  remove_file : String → SocketCall
  bind_unix : String → SocketCall
  bind_tcp : String → SocketCall
  bind_vsock : ℕ → SocketCall
  set_permissions : String → ℕ → SocketCall
  chown : String → Option ℕ → Option ℕ → SocketCall
  -- The loop that accepts clients is started.
  listens : ApiTransport → SocketCall

-- What the system answers, by the calls so far, the newest first.
pub record Host : Type 0 where
  pub call : List SocketCall → SocketCall → Option Error
  pub exists : List SocketCall → String → Bool
  pub users : String → Result (Option ℕ)
  pub groups : String → Result (Option ℕ)
  -- The error of `u32::from_str_radix`.
  pub no_number : String → Error

abbrev pub Setting : Type 0 → Type 0
Setting A = List SocketCall → Result A × List SocketCall

infixl 5 ◌>>=◌
abbrev pub ◌>>=◌ : {A B : Type 0} → Setting A → (A → Setting B) → Setting B
◌>>=◌ m f t = let (r, t') = m t in elim r [ ok a ↦ f a t' | err e ↦ (err e, t') ]

abbrev pub pure : {A : Type 0} → A → Setting A
pure a t = (ok a, t)

abbrev pub lift : {A : Type 0} → Result A → Setting A
lift r t = (r, t)

abbrev pub in_context : {A : Type 0} → String → Setting A → Setting A
in_context message m t = let (r, t') = m t in (with_context message r, t')

abbrev outcome : Option Error → Result (Unit {0})
outcome none = ok tt
outcome (some e) = err e

module _ (host : Host) where
  unfoldable pub call : SocketCall → Setting (Unit {0})
  call c t = (outcome (host.call t c), c ∷ t)

  -- `map(user_id).transpose()`.
  unfoldable pub id_of : String → (String → Result (Option ℕ)) → Option String → Result (Option ℕ)
  id_of kind ids none = ok none
  id_of kind ids (some name) = elim (known_id kind name (ids name)) [
    | err e ↦ err e
    | ok id ↦ ok (some id)
  ]

  unfoldable pub set_mode : String → Option String → Setting (Unit {0})
  set_mode path none = pure tt
  set_mode path (some mode) = elim (from_str_radix 8 4294967295 mode) [
    | none ↦ lift (err (context "invalid unixSocketMode" (host.no_number mode)))
    | some m ↦ call (set_permissions path m)
  ]

  unfoldable pub configure_unix_socket :
      String → Option String → Option String → Option String → Setting (Unit {0})
  configure_unix_socket path user group mode = call (set_permissions path 0o600) >>= λ u.
      lift (id_of "user" host.users user) >>= λ uid.
      lift (id_of "group" host.groups group) >>= λ gid.
      (if is_some uid || is_some gid then call (chown path uid gid) else pure tt) >>= λ u.
      set_mode path mode

  unfoldable pub make_parent : String → Setting (Unit {0})
  make_parent path = elim (parent path) [
    | none ↦ pure tt
    | some directory ↦ call (create_dir_all directory)
  ]

  unfoldable pub remove_old : String → Setting (Unit {0})
  remove_old path t = if host.exists t path then call (remove_file path) t else (ok tt, t)

  -- `api.port` is a `u32`, and `tcp_port` a `u16`.
  unfoldable pub port_of : Option ℕ → ℕ → Result ℕ
  port_of none tcp_port = ok tcp_port
  port_of (some port) tcp_port =
      if leb port 65535
      then ok port
      else err (said "out of range integral type conversion attempted")

  unfoldable pub set_up : Api → ApiTransport → Setting (Unit {0})
  set_up api ApiTransport.unix = make_parent api.unix_socket >>= λ u.
      remove_old api.unix_socket >>= λ u.
      in_context ("failed to bind Unix socket " <> api.unix_socket)
        (call (bind_unix api.unix_socket))
      >>= λ u.
          configure_unix_socket api.unix_socket api.unix_socket_user api.unix_socket_group
            api.unix_socket_mode
          >>= λ u. call (listens ApiTransport.unix)
  set_up api ApiTransport.tcp = lift (port_of api.port api.tcp_port) >>= λ port.
      in_context ("failed to bind TCP address " <> (api.host <> (":" <> decimal port)))
        (call (bind_tcp (api.host <> (":" <> decimal port))))
      >>= λ u. call (listens ApiTransport.tcp)
  set_up api ApiTransport.vsock =
      in_context ("failed to bind VSOCK port " <> decimal api.vsock_port)
        (call (bind_vsock api.vsock_port))
      >>= λ u. call (listens ApiTransport.vsock)

  unfoldable pub set_up_all : Api → List ApiTransport → Setting (Unit {0})
  set_up_all api [] = pure tt
  set_up_all api (x ∷ xs) = set_up api x >>= λ u. set_up_all api xs

  -- Whether the API is served at all: otherwise `serve` waits for ever.
  abbrev pub is_served : Api → Bool
  is_served api = if api.enable then not (is_empty api.transports) else false
