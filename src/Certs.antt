-- ===== src/Certs.antt =====
-- The certificates of the device, src/ob_certs.c. The files that the build includes are
-- parameters.
use onboarding.Base.{ℕ, ◌≡◌, refl, Bool, true, false, Option, none, some, Bytes, length}

-- `ob_cert_type_t`
pub data CertType : Type 0 where
  ca_cert public_cert private_key secondary_ca_cert : CertType

-- CONFIG_ONBOARDING_CERTS_GENERATE_CERTS, and the three included files
pub record CertFiles : Type 0 where
  pub generated : Bool
  pub ca_certificate : Bytes
  pub device_certificate : Bytes
  pub device_private_key : Bytes

-- The array that a type stands for
abbrev pub file_of : CertFiles → CertType → Bytes
file_of files ca_cert = files.ca_certificate
file_of files public_cert = files.device_certificate
file_of files private_key = files.device_private_key
file_of files secondary_ca_cert = files.ca_certificate

-- `ob_cert_get`; NULL is `none`.
unfoldable pub ob_cert_get : CertFiles → CertType → Option Bytes
ob_cert_get files type = elim files.generated [ true ↦ some (file_of files type) | false ↦ none ]

-- `ob_cert_len`, with `sizeof` of the array
unfoldable pub ob_cert_len : CertFiles → CertType → ℕ
ob_cert_len files type = elim files.generated [
  | true ↦ elim type [
    | ca_cert ↦ length files.ca_certificate
    | public_cert ↦ length files.device_certificate
    | private_key ↦ length files.device_private_key
    | secondary_ca_cert ↦ length files.ca_certificate
  ]
  | false ↦ 0
]

-- The two functions agree: of certificates that are built in, each type has a certificate, and
-- the length reported for it is that of the certificate.
pub ob_cert_get-len :
    (files : CertFiles) (type : CertType)
    → files.generated ≡ true
    → (ob_cert_get files type ≡ some (file_of files type))
      × (ob_cert_len files type ≡ length (file_of files type))
unfolding ob_cert_get ob_cert_len
ob_cert_get-len files ca_cert h = (rw (h) refl, rw (h) refl)
ob_cert_get-len files public_cert h = (rw (h) refl, rw (h) refl)
ob_cert_get-len files private_key h = (rw (h) refl, rw (h) refl)
ob_cert_get-len files secondary_ca_cert h = (rw (h) refl, rw (h) refl)
