-- ===== src/Ingress/Tests.antt =====
-- Headers with and without a spoofed entry, and a small address parser.
use adaptive_admission_contr.Base.{◌≡◌, refl, ◌⊎◌, arith, some, [], ◌∷◌, ◌++◌, Text, ◌==◌, codes}
use adaptive_admission_contr.Ingress.{
  AddressParser, exempt_path, resolve_client_ip, dispatch, forbidden, call_next,
}
use adaptive_admission_contr.Ingress.Forwarded.{
  resolve_client_ip-append, dispatch_lem, IsTrusted, Credited,
}

-- An address is its text, and a network one address.
abbrev exact : AddressParser
exact = record {
  Address = Text;
  Network = Text;
  ip_address = some;
  ip_network = some;
  member = λ a n. a == n;
}

trimmed : resolve_client_ip (some (codes "9, 1 ,2")) (codes "p") 2 ≡ some (codes "1")
unfolding resolve_client_ip
trimmed = refl

resolve_client_ip-append_example :
    resolve_client_ip (some (codes "9" ++ b',' ∷ b'1' ∷ codes ",2")) (codes "p") 2
    ≡ resolve_client_ip (some (b'1' ∷ codes ",2")) (codes "p") 2
unfolding resolve_client_ip
resolve_client_ip-append_example =
    resolve_client_ip-append (codes "9") (codes ",2") b'1' (codes "p") 2 (omega arith) (omega arith)

dispatch_lem_example :
    ((¬ IsTrusted exact (codes "p") (codes "p" ∷ []))
      × (dispatch exact (codes "p" ∷ []) 1 (codes "/a") (some (codes "p")) (some (codes "1"))
          ≡ forbidden))
    ⊎ (IsTrusted exact (codes "p") (codes "p" ∷ [])
        × (a : Text) × (dispatch exact
              (codes "p" ∷ [])
              1
              (codes "/a")
              (some (codes "p"))
              (some (codes "1"))
            ≡ call_next (some a))
        × Credited (codes "p") (some (codes "1")) 1 a)
unfolding ◌==◌ exempt_path
dispatch_lem_example =
    dispatch_lem exact (codes "p" ∷ []) 1 (codes "/a") (codes "p") (some (codes "1")) (omega arith)
      refl
