-- ===== src/Closing/Tests.antt =====
-- A broker with one topic is closed.
use marchiq.Base.{refl, true}
use marchiq.Groups.Tests.{fresh}
use marchiq.Closing.{CloseIo, close}
use marchiq.Closing.Refusals.{AllClosed, Refuses, close-Refuses}

abbrev well : CloseIo
well = record { close_log = λ _. true; close_index = λ _. true }

close-Refuses_example :
    AllClosed (close (λ _ _. well) fresh).1.topics × Refuses (close (λ _ _. well) fresh).1
close-Refuses_example = close-Refuses (λ _ _. well) fresh refl
