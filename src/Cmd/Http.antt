-- ===== src/Cmd/Http.antt =====
-- The TLS options of the two servers, applied.
use xenonite.Base.{◌≡◌, refl, List, [], ◌∷◌, Bool-cases, inl, inr, if◌then◌else◌, ◌==◌}
use xenonite.Cmd.Options.{
  TlsConfig, TlsOption, Flags, disable_http2, tls_opts, webhook_server_options,
  metrics_server_options, manager_options,
}

-- A server applies its options in order.
abbrev pub configured : List TlsOption → TlsConfig → TlsConfig
configured [] c = c
configured (o ∷ os) c = configured os (o c)

-- What a server may speak: HTTP/1.1 alone, unless the flag asks for HTTP/2.
abbrev pub spoken : Flags → TlsConfig → TlsConfig
spoken f c = if f.enable_http2 then c else record { next_protos = "http/1.1" ∷ [] }

configured-tls_opts : (f : Flags) (c : TlsConfig) → configured (tls_opts f) c ≡ spoken f c
unfolding tls_opts disable_http2
configured-tls_opts f c = elim (Bool-cases f.enable_http2) [ inl t ↦ rw t refl | inr n ↦ rw n refl ]

webhook_tls_opts : (f : Flags) → (webhook_server_options f).tls_opts ≡ tls_opts f
unfolding webhook_server_options
webhook_tls_opts f = elim (Bool-cases (f.webhook_cert_path == "")) [
  | inl t ↦ rw t refl
  | inr n ↦ rw n refl
]

metrics_tls_opts : (f : Flags) → (metrics_server_options f).tls_opts ≡ tls_opts f
unfolding metrics_server_options
metrics_tls_opts f = elim (Bool-cases (f.metrics_cert_path == "")) [
  | inl t ↦ rw t refl
  | inr n ↦ rw n refl
]

-- Whatever the other flags and the TLS configuration that a server starts from, both servers that
-- the manager is made with speak HTTP/1.1 alone unless the flag enables HTTP/2, and then are left
-- as they were.
pub manager_options-spoken :
    (f : Flags) (c : TlsConfig)
    → (configured (manager_options f).webhook_server.tls_opts c ≡ spoken f c)
      × (configured (manager_options f).metrics.tls_opts c ≡ spoken f c)
unfolding manager_options
manager_options-spoken f c = (
  rw (webhook_tls_opts f) (configured-tls_opts f c),
  rw (metrics_tls_opts f) (configured-tls_opts f c),
)
