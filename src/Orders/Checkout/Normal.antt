-- ===== src/Orders/Checkout/Normal.antt =====
-- The normalisation of a checkout request (the beginning of `checkout`).
use stora_ecommerce.Prelude.{◌≡◌}
use stora_ecommerce.Orders.Model.{CheckoutRequest}
use stora_ecommerce.Strings.Trim.{trim_space_twice, country_twice}
use stora_ecommerce.Orders.Checkout.{normalise}

-- To normalise a request once is enough: an e-mail, a phone number and a country that are trimmed,
-- the country in capitals, stay as they are.
pub normalise_twice : (req : CheckoutRequest) → normalise (normalise req) ≡ normalise req
unfolding normalise
normalise_twice req =
    cc (trim_space_twice req.email, trim_space_twice req.phone, country_twice req.address.country)
