-- ===== src/Web/Life/Credentials.antt =====
-- The start of a server over TLS, src/ob_web_server.c, with the certificates of src/ob_certs.c.
use onboarding.Base.{◌≡◌, refl, ap, ◌∙◌, true, false, some, length}
use onboarding.Nvs.{Settings, data_init}
use onboarding.Certs.{
  CertFiles, CertType, ca_cert, public_cert, private_key, file_of, ob_cert_len, ob_cert_get-len,
}
use onboarding.Web.Life.{
  System, Build, Server, Credential, add_credential, tls_ca_certificate, tls_server_certificate,
  tls_private_key, add_credentials, init_web_server,
}

module _ {W : Type 0} (system : System W) (files : CertFiles) (made : files.generated ≡ true) where
  add_credential_lem :
      (kind : Credential) (type : CertType) (w : W)
      → add_credential system files kind type w
        ≡ system.tls_credential_add kind (some (file_of files type)) (length (file_of files type)) w
  add_credential_lem kind type w =
      let (cert, len) = ob_cert_get-len files type made in
      ap (λ o. system.tls_credential_add kind o (ob_cert_len files type) w) cert
      ∙ ap (λ n. system.tls_credential_add kind (some (file_of files type)) n w) len

  add_credentials_lem :
      (w : W)
      → let w1 =
          (system.tls_credential_add tls_ca_certificate
            (some files.ca_certificate)
            (length files.ca_certificate)
            w).1 in
        let w2 =
          (system.tls_credential_add tls_server_certificate
            (some files.device_certificate)
            (length files.device_certificate)
            w1).1 in
        add_credentials system files w
        ≡ system.tls_credential_add tls_private_key
            (some files.device_private_key)
            (length files.device_private_key)
            w2
  unfolding add_credentials
  add_credentials_lem w =
      rw
        (
          add_credential_lem tls_ca_certificate ca_cert w,
          add_credential_lem tls_server_certificate public_cert _,
          add_credential_lem tls_private_key private_key _,
        )
        refl

module _ {C W : Type 0} (settings : Settings W) (system : System W) (build : Build) where
  init-added :
      (s : Server C W)
      → s.nvs.nvs_data_inited ≡ false
      → build.https ≡ true
      → build.managed ≡ false
      → let added = add_credentials system build.cert_files (settings.subsys_init s.nvs.world) in
        ((init_web_server settings system build s).0 ≡ added.0)
        × ((init_web_server settings system build s).1.nvs.world ≡ added.1)
        × ((init_web_server settings system build s).1.web_server_inited ≡ true)
  unfolding init_web_server data_init
  init-added s fresh tls unmanaged = simp (fresh, tls, unmanaged) (refl, refl, refl)

  -- A first start of a server over TLS initialises the store and then adds the three credentials
  -- with their lengths, each whatever came of the ones before; it is marked as initialised
  -- whatever came of them, and reports what came of the private key alone.
  pub init_web_server_https :
      (s : Server C W)
      → s.nvs.nvs_data_inited ≡ false
      → build.https ≡ true
      → build.managed ≡ false
      → build.cert_files.generated ≡ true
      → let files = build.cert_files in
        let w0 = settings.subsys_init s.nvs.world in
        let w1 =
          (system.tls_credential_add tls_ca_certificate
            (some files.ca_certificate)
            (length files.ca_certificate)
            w0).1 in
        let w2 =
          (system.tls_credential_add tls_server_certificate
            (some files.device_certificate)
            (length files.device_certificate)
            w1).1 in
        let (err, w3) =
          system.tls_credential_add tls_private_key
            (some files.device_private_key)
            (length files.device_private_key)
            w2 in
        ((init_web_server settings system build s).0 ≡ err)
        × ((init_web_server settings system build s).1.nvs.world ≡ w3)
        × ((init_web_server settings system build s).1.web_server_inited ≡ true)
  init_web_server_https s fresh tls unmanaged made =
      let (err, world, inited) = init-added s fresh tls unmanaged in
      let added =
        add_credentials_lem system build.cert_files made (settings.subsys_init s.nvs.world) in
      (err ∙ ap (λ o. o.0) added, world ∙ ap (λ o. o.1) added, inited)
