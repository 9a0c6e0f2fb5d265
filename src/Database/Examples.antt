-- ===== src/Database/Examples.antt =====
-- The theorem on rebind at a concrete query.
use wa_gateway.Base.{◌≡◌, refl, [], ◌∷◌}
use wa_gateway.Database.{rebind, itoa, put_decimal, digit}
use wa_gateway.Database.Numbered.{rebind-query_of, query_of, numbered}

rebind-query_of_example :
    rebind (query_of "UPDATE t SET a = " (", b = " ∷ " WHERE id = " ∷ "" ∷ []))
    ≡ "UPDATE t SET a = $1, b = $2 WHERE id = $3"
unfolding itoa put_decimal digit query_of numbered
rebind-query_of_example =
    rebind-query_of "UPDATE t SET a = " (", b = " ∷ " WHERE id = " ∷ "" ∷ [])
      ((
        refl,
        (
          refl,
          (
            refl,
            (
              refl,
              (
                refl,
                (
                  refl,
                  (
                    refl,
                    (
                      refl,
                      (refl, (refl, (refl, (refl, (refl, (refl, (refl, (refl, (refl, tt))))))))),
                    ),
                  ),
                ),
              ),
            ),
          ),
        ),
      ))
      (
        ((refl, (refl, (refl, (refl, (refl, (refl, tt))))))),
        (
          ((
            refl,
            (
              refl,
              (refl, (refl, (refl, (refl, (refl, (refl, (refl, (refl, (refl, (refl, tt)))))))))),
            ),
          )),
          (tt, tt),
        ),
      )

itoa_two_digits : itoa 1205 ≡ "1205"
unfolding itoa put_decimal digit
itoa_two_digits = refl
