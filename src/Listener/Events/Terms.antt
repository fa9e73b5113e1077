-- ===== src/Listener/Events/Terms.antt =====
-- app/listener/events/prefilter.py: the terms of the prefilter, Russian, Ukrainian and English.
use telegram_lead_assistent.Prelude.{List, [], ◌∷◌, String}

abbrev pub dev_noun_terms : List String
dev_noun_terms =
    "разработчик"
    ∷ ("программист"
        ∷ ("кодер"
            ∷ ("прогер"
                ∷ ("специалист"
                    ∷ ("исполнитель"
                        ∷ ("фрилансер"
                            ∷ ("верстальщик"
                                ∷ ("девелопер"
                                    ∷ ("розробник"
                                        ∷ ("програміст"
                                            ∷ ("спеціаліст"
                                                ∷ ("виконавець"
                                                    ∷ ("фрілансер"
                                                        ∷ ("верстальник"
                                                            ∷ ("developer"
                                                            ∷ ("programmer"
                                                            ∷ ("coder"
                                                            ∷ ("engineer"
                                                            ∷ ("freelancer"
                                                            ∷ ("contractor"
                                                            ∷ ("dev" ∷ [])))))))))))))))))))))

abbrev pub need_token_terms : List String
need_token_terms =
    "нужен"
    ∷ ("нужна"
        ∷ ("нужно"
            ∷ ("нужны"
                ∷ ("требуется"
                    ∷ ("требуются"
                        ∷ ("ищу"
                            ∷ ("ищем"
                                ∷ ("разыскивается"
                                    ∷ ("потрібен"
                                        ∷ ("потрібна"
                                            ∷ ("потрібно"
                                                ∷ ("потрібні"
                                                    ∷ ("шукаю"
                                                        ∷ ("шукаємо"
                                                            ∷ ("треба"
                                                            ∷ ("розшукується"
                                                            ∷ ("need"
                                                            ∷ ("needed"
                                                            ∷ ("looking for"
                                                            ∷ ("seeking"
                                                            ∷ ("searching for"
                                                            ∷ ("hiring"
                                                            ∷ ("want"
                                                            ∷ ("wanted" ∷ []))))))))))))))))))))))))

abbrev pub who_token_terms : List String
who_token_terms =
    "кто"
    ∷ ("хто"
        ∷ ("who"
            ∷ ("anyone"
                ∷ ("can someone" ∷ ("can anyone" ∷ ("somebody who" ∷ ("someone who" ∷ [])))))))

abbrev pub build_verb_terms : List String
build_verb_terms =
    "написать"
    ∷ ("сделать"
        ∷ ("разработать"
            ∷ ("запилить"
                ∷ ("собрать"
                    ∷ ("создать"
                        ∷ ("сверстать"
                            ∷ ("автоматизировать"
                                ∷ ("спарсить"
                                    ∷ ("спроектировать"
                                        ∷ ("написати"
                                            ∷ ("зробити"
                                                ∷ ("розробити"
                                                    ∷ ("зібрати"
                                                        ∷ ("створити"
                                                            ∷ ("автоматизувати"
                                                            ∷ ("make"
                                                            ∷ ("build"
                                                            ∷ ("write"
                                                            ∷ ("develop"
                                                            ∷ ("create"
                                                            ∷ ("code"
                                                            ∷ ("automate"
                                                            ∷ ("parse"
                                                            ∷ ("scrape" ∷ []))))))))))))))))))))))))

abbrev pub weak_need_terms : List String
weak_need_terms =
    "надо"
    ∷ ("нужно"
        ∷ ("нужен"
            ∷ ("требуется"
                ∷ ("треба"
                    ∷ ("потрібно" ∷ ("need to" ∷ ("want to" ∷ ("gotta" ∷ ("have to" ∷ [])))))))))

abbrev pub deliverable_terms : List String
deliverable_terms =
    "сайт"
    ∷ ("лендинг"
        ∷ ("бот"
            ∷ ("чат-бот"
                ∷ ("приложени"
                    ∷ ("интеграц"
                        ∷ ("парсер"
                            ∷ ("скрипт"
                                ∷ ("автоматизац"
                                    ∷ ("расширение"
                                        ∷ ("плагин"
                                            ∷ ("api"
                                                ∷ ("интерфейс"
                                                    ∷ ("додаток"
                                                        ∷ ("застосунок"
                                                            ∷ ("розширення"
                                                            ∷ ("website"
                                                            ∷ ("site"
                                                            ∷ ("landing"
                                                            ∷ ("bot"
                                                            ∷ ("chatbot"
                                                            ∷ ("app"
                                                            ∷ ("application"
                                                            ∷ ("integration"
                                                            ∷ ("parser"
                                                            ∷ ("scraper"
                                                            ∷ ("script"
                                                            ∷ ("extension"
                                                            ∷ ("plugin"
                                                            ∷ ("automation"
                                                            ∷ ("dashboard"
                                                            ∷ []))))))))))))))))))))))))))))))

abbrev pub stack_token_terms : List String
stack_token_terms =
    "бот"
    ∷ ("чат-бот"
        ∷ ("телеграм-бот"
            ∷ ("сайт"
                ∷ ("лендинг"
                    ∷ ("парсер"
                        ∷ ("парсинг"
                            ∷ ("скрейпинг"
                                ∷ ("скрипт"
                                    ∷ ("интеграц"
                                        ∷ ("автоматизац"
                                            ∷ ("api"
                                                ∷ ("вебхук"
                                                    ∷ ("расширение"
                                                        ∷ ("плагин"
                                                            ∷ ("приложени"
                                                            ∷ ("crm"
                                                            ∷ ("нейросет"
                                                            ∷ ("искусственный интеллект"
                                                            ∷ ("машинное обучение"
                                                            ∷ ("gpt"
                                                            ∷ ("chatgpt"
                                                            ∷ ("ai"
                                                            ∷ ("llm"
                                                            ∷ ("дашборд"
                                                            ∷ ("выгрузк"
                                                            ∷ ("сбор данных"
                                                            ∷ ("гугл таблиц"
                                                            ∷ ("додаток"
                                                            ∷ ("застосунок"
                                                            ∷ ("розширення"
                                                            ∷ ("парсер"
                                                            ∷ ("парсинг"
                                                            ∷ ("інтеграц"
                                                            ∷ ("автоматизац"
                                                            ∷ ("нейромереж"
                                                            ∷ ("штучний інтелект"
                                                            ∷ ("bot"
                                                            ∷ ("chatbot"
                                                            ∷ ("website"
                                                            ∷ ("site"
                                                            ∷ ("landing"
                                                            ∷ ("parser"
                                                            ∷ ("parsing"
                                                            ∷ ("scraper"
                                                            ∷ ("scraping"
                                                            ∷ ("web scraping"
                                                            ∷ ("script"
                                                            ∷ ("integration"
                                                            ∷ ("automation"
                                                            ∷ ("automate"
                                                            ∷ ("api"
                                                            ∷ ("webhook"
                                                            ∷ ("extension"
                                                            ∷ ("plugin"
                                                            ∷ ("app"
                                                            ∷ ("application"
                                                            ∷ ("crm"
                                                            ∷ ("dashboard"
                                                            ∷ ("ai"
                                                            ∷ ("llm"
                                                            ∷ ("gpt"
                                                            ∷ ("chatgpt"
                                                            ∷ ("machine learning"
                                                            ∷ ("neural"
                                                            ∷ ("data pipeline" ∷ ("etl" ∷ []))))))))
                                                            ))))))))))))))))))))))))))))))))))))))))
                                                            ))))))))))))))))))

abbrev pub order_pay_terms : List String
order_pay_terms =
    "закажу"
    ∷ ("заказать разработку"
        ∷ ("оплачу"
            ∷ ("оплата"
                ∷ ("готов оплатить"
                    ∷ ("за оплату"
                        ∷ ("за деньги"
                            ∷ ("сколько стоит сделать"
                                ∷ ("сколько будет стоить"
                                    ∷ ("замовлю"
                                        ∷ ("замовити розробку"
                                            ∷ ("готовий оплатити"
                                                ∷ ("за оплату"
                                                    ∷ ("скільки коштує зробити"
                                                        ∷ ("hire"
                                                            ∷ ("for hire"
                                                            ∷ ("will pay"
                                                            ∷ ("ready to pay"
                                                            ∷ ("paid gig"
                                                            ∷ ("paid project"
                                                            ∷ ("how much to build"
                                                            ∷ ("how much would it cost"
                                                            ∷ ("quote" ∷ []))))))))))))))))))))))

abbrev pub exclusion_terms : List String
exclusion_terms =
    "ищу работу"
    ∷ ("ищу подработку"
        ∷ ("резюме"
            ∷ ("шукаю роботу"
                ∷ ("looking for a job"
                    ∷ ("looking for work"
                        ∷ ("my resume"
                            ∷ ("cv" ∷ ("vacancy" ∷ ("вакансия" ∷ ("вакансію" ∷ []))))))))))

abbrev pub known_greeting_phrases : List String
known_greeting_phrases =
    "доброе утро"
    ∷ ("добрый день" ∷ ("добрый вечер" ∷ ("здравствуйте" ∷ ("привет" ∷ ("hello" ∷ ("hi" ∷ []))))))

abbrev pub known_thanks_phrases : List String
known_thanks_phrases = "благодарю" ∷ ("спасибо" ∷ ("thank you" ∷ ("thanks" ∷ [])))
