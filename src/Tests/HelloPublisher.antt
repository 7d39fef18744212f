-- ===== src/Tests/HelloPublisher.antt =====
-- Runs of the hello_world publisher.
use zzdds_examples.Base.{◌≡◌, refl, true, List, [], ◌∷◌}
use zzdds_examples.Base.Text.{Text, codes}
use zzdds_examples.Base.Number.{strtoul}
use zzdds_examples.Runtime.Event.{samples}
use zzdds_examples.Runtime.Program.{Env}
use zzdds_examples.Runtime.Contract.{Holds, Ends}
use zzdds_examples.Apps.Common.{
  parse_domain, PubCallback, publication_matched, reliable_reader_ready,
}
use zzdds_examples.Apps.Common.Keeps.{Sent, UpTo}
use zzdds_examples.Apps.HelloWorld.{HelloWorld}
use zzdds_examples.Apps.HelloWorld.Publisher.{sample, main}
use zzdds_examples.Apps.HelloWorld.Publisher.Contract.{start, hello_publisher-Ends}
use zzdds_examples.Tests.Worlds.{willing}

-- A subscriber that is there at once and then gone.
abbrev one_reader : Env HelloWorld PubCallback
one_reader =
    willing (λ log. publication_matched 1 ∷ reliable_reader_ready true ∷ publication_matched 0 ∷ [])

abbrev on_domain_7 : List Text
on_domain_7 = codes "-d" ∷ codes "7" ∷ []

hello_publisher-Ends_example :
    Holds
      (λ _ _. ⊥)
      (Ends samples (Sent sample 10) (UpTo sample 10))
      (main one_reader on_domain_7 start)
hello_publisher-Ends_example = hello_publisher-Ends one_reader on_domain_7

hello_domain : parse_domain on_domain_7 ≡ 7
unfolding parse_domain strtoul
hello_domain = refl
